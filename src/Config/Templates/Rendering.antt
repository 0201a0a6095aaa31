-- ===== src/Config/Templates/Rendering.antt =====
-- What a template reads of the client's request.
use anthroxy.Prelude.{◌≡◌, refl, false, List, [], ◌∷◌, ◌++◌, Text, Option-cases, inl, inr}
use anthroxy.Http.{Http}
use anthroxy.Config.Templates.{
  Part, text, header, is_client_credential, client_value, part_value, render_from, render,
}
use anthroxy.Config.Templates.Parsing.{IsSpelled}

module _ (h : Http) where
  -- Two requests with the same headers but the client's credential.
  abbrev pub IsAlike : h.Map → h.Map → Type 0
  IsAlike a b = (n : Text) → is_client_credential n ≡ false → h.get_all n a ≡ h.get_all n b

  client_value-IsAlike :
      (n : Text) (a b : h.Map)
      → h.get_all n a ≡ h.get_all n b
      → client_value h n a ≡ client_value h n b
  unfolding client_value
  client_value-IsAlike n a b same = simp (client_value, same) refl

  render_from-IsAlike :
      (parts : List Part) (t : Text) (a b : h.Map) (out : Text)
      → IsSpelled h parts t
      → IsAlike a b
      → render_from h parts a out ≡ render_from h parts b out
  unfolding IsSpelled render_from part_value
  render_from-IsAlike [] t a b out s same = refl
  render_from-IsAlike (text w ∷ parts) t a b out (rest, not_empty, e, s) same =
      render_from-IsAlike parts rest a b (out ++ w) s same
  render_from-IsAlike (header name ∷ parts) t a b out (written, rest, e, private, f, s) same =
      let value_same = client_value-IsAlike name a b (same name private) in
      elim (Option-cases (client_value h name b)) [
        | inl none_e ↦ simp (render_from, part_value, value_same, none_e) refl
        | inr (value, some_e) ↦
            simp (render_from, part_value, value_same, some_e)
              (render_from-IsAlike parts rest a b (out ++ value) s same)
      ]

  -- A template that parsed gives two requests the same value when they differ at most in the
  -- client's credential.
  pub render-IsAlike :
      (parts : List Part) (t : Text) (a b : h.Map)
      → IsSpelled h parts t
      → IsAlike a b
      → render h parts a ≡ render h parts b
  unfolding render
  render-IsAlike parts t a b s same = render_from-IsAlike parts t a b [] s same
