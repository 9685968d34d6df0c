-- ===== src/Model/Catalogue.antt =====
-- model/scopes.go: the scopes, and the scope that each action of the cross-world tunnel takes.
use foundryvtt_rest_api_rela.Base.{
  Bool, Dict, List, Option, String, [], contains, if◌then◌else◌, lookup, nat_eq, string_eq, ◌∷◌,
}

unfoldable pub all_scopes : List String
all_scopes =
    "entity:read" ∷ "entity:write" ∷ "roll:read" ∷ "roll:execute" ∷ "chat:read" ∷ "chat:write"
    ∷ "encounter:read" ∷ "encounter:manage" ∷ "macro:list" ∷ "macro:execute" ∷ "macro:write"
    ∷ "scene:read" ∷ "scene:write" ∷ "canvas:read" ∷ "canvas:write" ∷ "effects:read"
    ∷ "effects:write" ∷ "user:read" ∷ "user:write" ∷ "file:read" ∷ "file:write" ∷ "playlist:control"
    ∷ "world:info" ∷ "clients:read" ∷ "sheet:read" ∷ "events:subscribe" ∷ "session:manage"
    ∷ "execute-js" ∷ "search" ∷ "structure:read" ∷ "structure:write" ∷ "dnd5e" ∷ []

unfoldable pub default_scopes : List String
default_scopes =
    "entity:read" ∷ "roll:read" ∷ "chat:read" ∷ "encounter:read" ∷ "macro:list" ∷ "scene:read"
    ∷ "canvas:read" ∷ "effects:read" ∷ "user:read" ∷ "file:read" ∷ "world:info" ∷ "clients:read"
    ∷ "sheet:read" ∷ "events:subscribe" ∷ "search" ∷ "structure:read" ∷ "dnd5e" ∷ []

unfoldable pub action_to_scope_required : Dict String String
action_to_scope_required =
    ("get", "entity:read")
    ∷ ("create", "entity:write")
    ∷ ("update", "entity:write")
    ∷ ("delete", "entity:write")
    ∷ ("give", "entity:write")
    ∷ ("remove", "entity:write")
    ∷ ("decrease", "entity:write")
    ∷ ("increase", "entity:write")
    ∷ ("kill", "entity:write")
    ∷ ("search", "search")
    ∷ ("rolls", "roll:read")
    ∷ ("last-roll", "roll:read")
    ∷ ("roll", "roll:execute")
    ∷ ("chat-messages", "chat:read")
    ∷ ("chat-send", "chat:write")
    ∷ ("encounters", "encounter:read")
    ∷ ("start-encounter", "encounter:manage")
    ∷ ("next-turn", "encounter:manage")
    ∷ ("next-round", "encounter:manage")
    ∷ ("last-turn", "encounter:manage")
    ∷ ("last-round", "encounter:manage")
    ∷ ("end-encounter", "encounter:manage")
    ∷ ("add-to-encounter", "encounter:manage")
    ∷ ("remove-from-encounter", "encounter:manage")
    ∷ ("macros", "macro:list")
    ∷ ("macro-execute", "macro:execute")
    ∷ ("create-macro", "macro:write")
    ∷ ("update-macro", "macro:write")
    ∷ ("delete-macro", "macro:write")
    ∷ ("get-scene", "scene:read")
    ∷ ("create-scene", "scene:write")
    ∷ ("update-scene", "scene:write")
    ∷ ("delete-scene", "scene:write")
    ∷ ("switch-scene", "scene:write")
    ∷ ("get-users", "user:read")
    ∷ ("get-user", "user:read")
    ∷ ("create-user", "user:write")
    ∷ ("update-user", "user:write")
    ∷ ("delete-user", "user:write")
    ∷ ("file-system", "file:read")
    ∷ ("download-file", "file:read")
    ∷ ("upload-file", "file:write")
    ∷ ("create-folder", "structure:write")
    ∷ ("delete-folder", "structure:write")
    ∷ ("structure", "structure:read")
    ∷ ("get-folder", "structure:read")
    ∷ ("sheet-screenshot", "sheet:read")
    ∷ ("scene-screenshot", "scene:read")
    ∷ ("scene-raw-image", "scene:read")
    ∷ ("get-playlists", "playlist:control")
    ∷ ("playlist-play", "playlist:control")
    ∷ ("playlist-stop", "playlist:control")
    ∷ ("playlist-next", "playlist:control")
    ∷ ("playlist-volume", "playlist:control")
    ∷ ("play-sound", "playlist:control")
    ∷ ("stop-sound", "playlist:control")
    ∷ ("world-info", "world:info")
    ∷ ("server-url", "world:info")
    ∷ ("get-canvas-documents", "canvas:read")
    ∷ ("create-canvas-document", "canvas:write")
    ∷ ("update-canvas-document", "canvas:write")
    ∷ ("delete-canvas-document", "canvas:write")
    ∷ ("move-token", "canvas:write")
    ∷ ("execute-js", "execute-js")
    ∷ []

unfoldable pub scope_for_action : String → Option String
scope_for_action action = lookup action action_to_scope_required

unfoldable pub is_valid_scope : String → Bool
is_valid_scope scope = contains scope all_scopes

-- The first scope that is not valid, or the empty string.
unfoldable pub validate_scopes : List String → String
validate_scopes [] = ""
validate_scopes (s ∷ ss) = let rest = validate_scopes ss in if is_valid_scope s then rest else s
