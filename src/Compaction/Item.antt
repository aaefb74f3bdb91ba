-- ===== src/Compaction/Item.antt =====
-- The items of a history, as internal/compaction reads them (the types are the package llm's), with
-- IsUserMessage of compaction.go, modelGenerated of estimate.go, and IsHeartbeat, Developer and
-- Configured of keep.go. Texts are valid UTF-8, as lists of code points.
use mathlib.Core.List.{reverse}
use uagent_harness.Prelude.{
  Bool, true, false, ◌&&◌, Option, none, some, List, [], ◌∷◌, Text, codes, has_prefix, keep_if,
  if◌then◌else◌,
}

pub data Role : Type 0 where
  system_role developer_role user_role assistant_role : Role

pub data OutputKind : Type 0 where
  text_output image_output : OutputKind

pub record Output : Type 0 where
  pub kind : OutputKind
  pub value : Text

-- An item's data. Of a reasoning item, what its raw JSON holds as encrypted content.
pub data Body : Type 0 where
  message : Role → Text → Body
  tool_call : (id name arguments : Text) → Body
  tool_result : (id : Text) → List Output → Body
  reasoning : Option Text → Body
  configuration : Text → Body
  other_body : Body

-- The item's type, which the source compares beside its data.
pub data ItemType : Type 0 where
  message_type configuration_type other_type : ItemType

pub record Item : Type 0 where
  pub provider_id : Text
  pub type_of : ItemType
  pub body : Body

abbrev is_message_type : ItemType → Bool
is_message_type message_type = true
is_message_type _ = false

abbrev is_configuration_type : ItemType → Bool
is_configuration_type configuration_type = true
is_configuration_type _ = false

abbrev is_user : Body → Bool
is_user (message user_role text) = true
is_user _ = false

abbrev is_developer : Body → Bool
is_developer (message developer_role text) = true
is_developer _ = false

abbrev pub text_of : Body → Text
text_of (message role text) = text
text_of _ = []

unfoldable pub is_user_message : Item → Bool
is_user_message item = is_message_type item.type_of && is_user item.body

abbrev pub heartbeat_prefix : Text
heartbeat_prefix = codes "Heartbeat: waited "

unfoldable pub is_heartbeat : Item → Bool
is_heartbeat item = is_user_message item && has_prefix (text_of item.body) heartbeat_prefix

unfoldable pub is_developer_message : Item → Bool
is_developer_message item = is_message_type item.type_of && is_developer item.body

unfoldable pub developer : List Item → List Item
developer covered = keep_if is_developer_message covered

abbrev pub made_by_model : Body → Bool
made_by_model (message assistant_role text) = true
made_by_model (tool_call id name arguments) = true
made_by_model (reasoning encrypted) = true
made_by_model _ = false

unfoldable pub model_generated : Item → Bool
model_generated item = made_by_model item.body

-- The tool call that an item is, by its id.
abbrev pub call_id : Body → Option Text
call_id (tool_call id name arguments) = some id
call_id _ = none

abbrev pub result_id : Body → Option Text
result_id (tool_result id output) = some id
result_id _ = none

abbrev effort_of : Body → Option Text
effort_of (configuration effort) = some effort
effort_of _ = none

abbrev pub or_text : Option Text → Text → Text
or_text (some t) other = t
or_text none other = other

-- The loop of `Configured` over the items from the last on.
unfoldable pub configured_loop : List Item → Text
configured_loop [] = []
configured_loop (item ∷ items) =
    let rest = configured_loop items in
    if is_configuration_type item.type_of then or_text (effort_of item.body) rest else rest

unfoldable pub configured : List Item → Text
configured covered = configured_loop (reverse covered)

abbrev pub user_text : Text → Item
user_text text = record { provider_id = []; type_of = message_type; body = message user_role text }
