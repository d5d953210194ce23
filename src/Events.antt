-- ===== src/Events.antt =====
-- The messages of a stream: what adapters/openai_compat.py makes of the lines of a provider and reads
-- of a message, and what api/proxy/streaming.py writes into one. A chunk whose JSON is an array is
-- taken for one on which `dict` raises; an array of pairs would be one on which it does not.
use ai_proxy.Common.{String, append, Option, none, some, List, [], ◌∷◌, ◌==◌, ◌||◌, if◌then◌else◌}
use ai_proxy.Dict
use ai_proxy.Dict.{Dict}
use ai_proxy.Text.{strip, drop_prefix}
use ai_proxy.Json.{str, obj, object, field, to_dict, JsonObject, truthy}
use ai_proxy.Upstream.{Loaded, loaded, no_json, not_loaded, Bytes, Codec}

-- `body_iterator` of the adapter, on the lines of the provider's response
unfoldable body_chunks : Codec → List String → List Bytes
body_chunks codec [] = []
body_chunks codec (line ∷ lines) =
    let rest = if strip line == "data: [DONE]" then [] else body_chunks codec lines in
    if line == "" then rest else codec.encode (append line "\n\n") ∷ rest

abbrev without_data : String → Option String → String
without_data text none = text
without_data text (some rest) = rest

-- `no_json` stands for the `None` that the code returns, `not_loaded` for an exception.
unfoldable pub parse_sse_chunk : Codec → Bytes → Loaded
unfolding drop_prefix
parse_sse_chunk codec chunk_bytes =
    let text = strip (codec.decode chunk_bytes) in
    if text == "" || text == "data: [DONE]"
    then no_json
    else codec.loads_text (without_data text (drop_prefix "data: " text))

-- A message of the stream: `data:` with the JSON of the object.
abbrev pub event : Codec → JsonObject → Bytes
event codec payload =
    codec.encode (append (append "data: " (codec.dumps_text (object payload))) "\n\n")

-- The chunk with the route, or `none` where the code raises: the text cannot be read, or what was
-- parsed is no object.
abbrev pub inject_parsed : Codec → Bytes → String → Loaded → Option Bytes
inject_parsed codec chunk_bytes route no_json = some chunk_bytes
inject_parsed codec chunk_bytes route not_loaded = none
inject_parsed codec chunk_bytes route (loaded (obj (field k v fields))) =
    some (event codec (Dict.set (to_dict (field k v fields)) "ai_proxy_route" (str route)))
inject_parsed codec chunk_bytes route (loaded v) = if truthy v then none else some chunk_bytes

unfoldable pub inject_ai_proxy_route_chunk : Codec → Option String → Bytes → Option Bytes
unfolding parse_sse_chunk
inject_ai_proxy_route_chunk codec none chunk_bytes = some chunk_bytes
inject_ai_proxy_route_chunk codec (some route) chunk_bytes =
    if route == ""
    then some chunk_bytes
    else inject_parsed codec chunk_bytes route (parse_sse_chunk codec chunk_bytes)

abbrev with_route : Option String → JsonObject → JsonObject
with_route none payload = payload
with_route (some route) payload =
    if route == "" then payload else Dict.set payload "ai_proxy_route" (str route)

unfoldable pub stream_error_event : Codec → Option String → String → Bytes
stream_error_event codec ai_proxy_route message =
    event codec (with_route ai_proxy_route (("error", object (("message", str message) ∷ [])) ∷ []))
