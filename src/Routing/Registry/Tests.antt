-- ===== src/Routing/Registry/Tests.antt =====
-- Runs of the table of routes.
use anthroxy.Prelude.{◌≡◌, none, some, [], ◌∷◌, ascii, ok, text_eq, List}
use anthroxy.Routing.Registry.{
  ModelConfig, route, alias, default_match, from_config, lookup, resolve,
}
use anthroxy.Routing.Registry.Names.{lookup_lem, resolve_lem}

abbrev small : ModelConfig
small = record {
  id = ascii "small";
  backend = ascii "b";
  upstream_model = none;
  display_name = none;
  aliases = ascii "haiku" ∷ [];
}

abbrev large : ModelConfig
large = record small { id = ascii "large"; aliases = ascii "opus" ∷ [] }

abbrev models : List ModelConfig
models = small ∷ large ∷ []

lookup_lem_example :
    lookup (from_config models none) (ascii "opus") ≡ ok (some (route large, alias))
unfolding text_eq
lookup_lem_example = lookup_lem models none (ascii "opus")

resolve_lem_example :
    resolve (from_config models (some (ascii "haiku"))) (ascii "gpt")
    ≡ ok (some (route small, default_match))
unfolding text_eq
resolve_lem_example = resolve_lem models (some (ascii "haiku")) (ascii "gpt")
