-- ===== src/Conversations/Groups.antt =====
-- The SQL of db/repositories/chats.py, as what its expressions give on a row: the key and the label of
-- the group that a row is in, and the messages of a group. `concat` and `coalesce` of a column that
-- may be NULL are those of PostgreSQL.
use ai_proxy.Common.{ℕ, String, append, Option, none, some, List, [], ◌∷◌, ◌==◌, if◌then◌else◌}
use ai_proxy.Conversations.{Format, ProxyRequest, or_text}
use ai_proxy.Conversations.Entries.{Message}
use ai_proxy.Conversations.Tree.{build_conversation_messages}

-- `func.concat`
unfoldable pub concat : List String → String
concat [] = ""
concat (s ∷ ss) = append s (concat ss)

-- `_group_key_expression`
unfoldable pub group_key_expression : String → ProxyRequest → String
unfolding concat
group_key_expression group_by row =
    let system = or_text row.system_prompt_text in
    let user = or_text row.first_user_message_text in
    let assistant = or_text row.first_assistant_response_text in
    if group_by == "system_prompt_first_user"
    then concat
        ("{\"first_user_message\": \"" ∷ user ∷ "\", \"system_prompt\": \"" ∷ system ∷ "\"}" ∷ [])
    else concat (
        "{\"first_assistant_response\": \"" ∷ assistant ∷ "\", \"first_user_message\": \"" ∷ user
        ∷ "\", \"system_prompt\": \"" ∷ system ∷ "\"}" ∷ [])

-- `_triple_label_case`, on the three columns
unfoldable pub triple_label_case : Option String → Option String → Option String → String
unfolding concat
triple_label_case (some s) (some u) (some a) =
    concat ("System: " ∷ s ∷ "\n" ∷ "User: " ∷ u ∷ "\n" ∷ "Assistant: " ∷ a ∷ [])
triple_label_case (some s) (some u) none = concat ("System: " ∷ s ∷ "\n" ∷ "User: " ∷ u ∷ [])
triple_label_case (some s) none (some a) = concat ("System: " ∷ s ∷ "\n" ∷ "Assistant: " ∷ a ∷ [])
triple_label_case none (some u) (some a) = concat ("User: " ∷ u ∷ "\n" ∷ "Assistant: " ∷ a ∷ [])
triple_label_case (some s) none none = concat ("System: " ∷ s ∷ [])
triple_label_case none (some u) none = concat ("User: " ∷ u ∷ [])
triple_label_case none none (some a) = concat ("Assistant: " ∷ a ∷ [])
triple_label_case none none none = "unknown"

unfoldable pub pair_label_case : Option String → Option String → String
unfolding concat
pair_label_case (some s) (some u) = concat ("System: " ∷ s ∷ "\nUser: " ∷ u ∷ [])
pair_label_case (some s) none = concat ("System: " ∷ s ∷ [])
pair_label_case none (some u) = concat ("User: " ∷ u ∷ [])
pair_label_case none none = "unknown"

-- `_group_label_expression`
unfoldable pub group_label_expression : String → ProxyRequest → String
unfolding pair_label_case triple_label_case
group_label_expression group_by row =
    if group_by == "system_prompt_first_user"
    then pair_label_case row.system_prompt_text row.first_user_message_text
    else triple_label_case row.system_prompt_text row.first_user_message_text
        row.first_assistant_response_text

-- `.where(group_key_expr == group_key)`
unfoldable pub rows_of_group : String → String → List ProxyRequest → List ProxyRequest
unfolding group_key_expression
rows_of_group group_by group_key [] = []
rows_of_group group_by group_key (row ∷ rows) =
    let rest = rows_of_group group_by group_key rows in
    if group_key_expression group_by row == group_key then row ∷ rest else rest

-- `get_conversation_messages`, on the rows of the table in the order of the query, with how many calls
-- of `walk` may stand in one another
unfoldable pub get_conversation_messages :
    Format → ℕ → List ProxyRequest → String → String → Option (List Message)
unfolding rows_of_group build_conversation_messages
get_conversation_messages format limit rows group_key group_by =
    build_conversation_messages format limit (rows_of_group group_by group_key rows)
