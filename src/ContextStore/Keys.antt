-- ===== src/ContextStore/Keys.antt =====
-- The keys of internal/store/store.go.
use openai_gate.Base.{[], ◌∷◌, ◌++◌, Bytes, codes}
use openai_gate.Text.Decimal.Int.{ℤ, format_int}

-- `kind:a:b`, with the separators that the source writes out.
abbrev pub pair_prefix : Bytes → Bytes → Bytes → Bytes
pair_prefix kind a b = kind ++ b':' ∷ (a ++ b':' ∷ b)

abbrev pub timed_key : Bytes → Bytes → Bytes → ℤ → Bytes
timed_key kind a b time = kind ++ b':' ∷ (a ++ b':' ∷ (b ++ b':' ∷ format_int time))

-- "user:" + user + ":" + srcType + ":" + time
abbrev pub user_key : Bytes → Bytes → ℤ → Bytes
user_key user src_type time = timed_key (codes "user") user src_type time

abbrev pub user_prefix : Bytes → Bytes → Bytes
user_prefix user src_type = pair_prefix (codes "user") user src_type

-- "audio:" + session + ":" + source + ":" + time
abbrev pub audio_key : Bytes → Bytes → ℤ → Bytes
audio_key session source time = timed_key (codes "audio") session source time

abbrev pub audio_prefix : Bytes → Bytes → Bytes
audio_prefix session source = pair_prefix (codes "audio") session source

-- "text:" + session + ":" + source + ":" + time
abbrev pub text_key : Bytes → Bytes → ℤ → Bytes
text_key session source time = timed_key (codes "text") session source time

abbrev pub text_prefix : Bytes → Bytes
text_prefix session = codes "text" ++ b':' ∷ session

-- "context:" + phone
abbrev pub context_key : Bytes → Bytes
context_key phone = codes "context" ++ b':' ∷ phone

-- `key[8:]`
unfoldable pub drop_context : Bytes → Bytes
drop_context (a ∷ b ∷ c ∷ d ∷ e ∷ f ∷ g ∷ h ∷ rest) = rest
drop_context short = []
