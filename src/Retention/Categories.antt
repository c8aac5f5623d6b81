-- ===== src/Retention/Categories.antt =====
-- src/retention.ts: the categories, and the one that a stored key belongs to.
use baileys_session_manager.Base.{
  Bool, ◌||◌, Option, none, some, List, [], ◌∷◌, ◌++◌, leb, if◌then◌else◌, length, Text, text,
  text_eq, starts_with,
}

-- The keys of `SignalDataTypeMap`.
pub data Category : Type 0 where
  app_state_sync_version sender_key_memory app_state_sync_key identity_key device_list : Category
  lid_mapping sender_key pre_key session tctoken : Category

abbrev pub name : Category → Text
name app_state_sync_version = text "app-state-sync-version"
name sender_key_memory = text "sender-key-memory"
name app_state_sync_key = text "app-state-sync-key"
name identity_key = text "identity-key"
name device_list = text "device-list"
name lid_mapping = text "lid-mapping"
name sender_key = text "sender-key"
name pre_key = text "pre-key"
name session = text "session"
name tctoken = text "tctoken"

abbrev pub creds_key : Text
creds_key = text "creds"

-- `[…].sort((a, b) => b.length - a.length)`: the longest first, and equal lengths in their order.
unfoldable pub place : Category → List Category → List Category
place c [] = c ∷ []
place c (d ∷ ds) = if leb (length (name d)) (length (name c)) then c ∷ d ∷ ds else d ∷ place c ds

unfoldable pub sort_by_length : List Category → List Category
unfolding place
sort_by_length [] = []
sort_by_length (c ∷ cs) = place c (sort_by_length cs)

abbrev pub listed : List Category
listed =
    app_state_sync_version ∷ sender_key_memory ∷ app_state_sync_key ∷ identity_key ∷ device_list
    ∷ lid_mapping ∷ sender_key ∷ pre_key ∷ session ∷ tctoken ∷ []

-- `CATEGORIES`
unfoldable pub categories : List Category
unfolding sort_by_length
categories = sort_by_length listed

-- `key === category || key.startsWith(`${category}-`)`
unfoldable pub matches : Text → Category → Bool
matches key category = text_eq key (name category) || starts_with (name category ++ text "-") key

unfoldable pub find_category : Text → List Category → Option Category
unfolding matches
find_category key [] = none
find_category key (c ∷ cs) = if matches key c then some c else find_category key cs

unfoldable pub resolve_category : Text → Option Category
unfolding find_category categories
resolve_category key = if text_eq key creds_key then none else find_category key categories
