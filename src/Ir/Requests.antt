-- ===== src/Ir/Requests.antt =====
-- src/ir/request.rs: a chat request between the wire formats. `Value` is the JSON crate's, `Float` the
-- type `f64`.
use anthroxy.Prelude.{ℕ, Bool, Option, List, Text}

pub data Role : Type 0 where
  user assistant system : Role

pub record Image : Type 0 where
  pub media_type : Text
  pub data_of : Text

pub data ToolChoice : Type 0 where
  choose_auto choose_required choose_none : ToolChoice
  choose_tool : Text → ToolChoice

module _ (Value Float : Type 0) where
  pub data Part : Type 0 where
    text_of_part : Text → Part
    image : Image → Part
    -- id, name, input
    tool_use : Text → Text → Value → Part
    -- tool_use_id, content, images, is_error
    tool_result : Text → Text → List Image → Bool → Part

  pub record RequestMessage : Type 0 where
    pub role : Role
    pub parts : List Part

  pub record Tool : Type 0 where
    pub name : Text
    pub description : Option Text
    pub parameters : Value

  pub record Request : Type 0 where
    pub model : Text
    pub system_prompt : Option Text
    pub messages : List RequestMessage
    pub tools : List Tool
    pub tool_choice : Option ToolChoice
    pub max_tokens : Option ℕ
    pub temperature : Option Float
    pub top_p : Option Float
    pub stop : List Text
    pub stream : Bool
    pub user_of : Option Text
    pub reasoning_effort : Option Text
    pub disable_parallel_tool_calls : Bool
