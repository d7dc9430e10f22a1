-- ===== src/ContextStore/Items.antt =====
-- The store of internal/store/store.go as its callers see it: what is stored of a user's session, a
-- frame, a phrase or a context, whatever its key looks like.
use openai_gate.Base.{
  ◌≡◌, refl, inl, inr, Bool, true, false, ◌&&◌, Option, arith, Bytes, bytes_eq, bytes_beq,
  bytes_beq_iff, codes, ◌==◌, Bool-cases,
}
use openai_gate.Base.Assoc.{lookup}
use openai_gate.Text.Decimal.Int.{ℤ, IsInt64, int_eq, int_beq_iff}
use openai_gate.Mdbx.{Mdbx}
use openai_gate.ContextStore.Keys.{timed_key, user_key, audio_key, text_key, context_key}
use openai_gate.ContextStore.Parsing.{NoColon, timed_key-injective}

-- A place of the store: a user's session by source type and time, a frame and a phrase by session,
-- source and time, a context by phone.
pub data Item : Type 0 where
  user_session : Bytes → Bytes → ℤ → Item
  frame : Bytes → Bytes → ℤ → Item
  phrase : Bytes → Bytes → ℤ → Item
  context : Bytes → Item

abbrev pub key_of : Item → Bytes
key_of (user_session user src_type time) = user_key user src_type time
key_of (frame session source time) = audio_key session source time
key_of (phrase session source time) = text_key session source time
key_of (context phone) = context_key phone

-- Names without a colon, and an int64 time.
abbrev pub IsPlain : Item → Type 0
IsPlain (user_session user src_type time) = NoColon user × NoColon src_type × IsInt64 time
IsPlain (frame session source time) = NoColon session × NoColon source × IsInt64 time
IsPlain (phrase session source time) = NoColon session × NoColon source × IsInt64 time
IsPlain (context phone) = Unit {0}

-- What stands at each place.
abbrev pub View : Type 0
View = Item → Option Bytes

abbrev pub view : (m : Mdbx) → m.Txn → View
view m db i = lookup (key_of i) (m.entries db)

abbrev same_names : Bytes → Bytes → ℤ → Bytes → Bytes → ℤ → Bool
same_names a b t a' b' t' = a == a' && b == b' && t == t'

unfoldable pub same_item : Item → Item → Bool
same_item (user_session a b t) (user_session a' b' t') = same_names a b t a' b' t'
same_item (frame a b t) (frame a' b' t') = same_names a b t a' b' t'
same_item (phrase a b t) (phrase a' b' t') = same_names a b t a' b' t'
same_item (context a) (context a') = a == a'
same_item i j = false

pub same_names_all :
    (a b : Bytes) (t : ℤ) (a' b' : Bytes) (t' : ℤ)
    → same_names a b t a' b' t' ≡ true
    → (a ≡ a') × (b ≡ b') × (t ≡ t')
same_names_all a b t a' b' t' h = (
  ground (arith, bytes_beq_iff a a'),
  ground (arith, bytes_beq_iff b b'),
  ground (arith, int_beq_iff t t'),
)

same_names_iff :
    (kind a b : Bytes) (t : ℤ) (a' b' : Bytes) (t' : ℤ)
    → NoColon kind
    → NoColon a × NoColon b × IsInt64 t
    → NoColon a' × NoColon b' × IsInt64 t'
    → (timed_key kind a b t == timed_key kind a' b' t') ≡ same_names a b t a' b' t'
same_names_iff kind a b t a' b' t' hk (ha, hb, ht) (ha', hb', ht') =
    elim (Bool-cases (timed_key kind a b t == timed_key kind a' b' t')) [
      | inl e ↦
          let (x, y, z) =
            timed_key-injective kind a a' b b' t t' hk ha ha' hb hb' ht ht'
              ((bytes_beq_iff (timed_key kind a b t) (timed_key kind a' b' t')).0 e) in
          ground
            (arith, e, (bytes_beq_iff a a').1 x, (bytes_beq_iff b b').1 y, (int_beq_iff t t').1 z)
      | inr e ↦ elim (Bool-cases (same_names a b t a' b' t')) [
        | inl s ↦
            let (x, y, z) = same_names_all a b t a' b' t' s in
            let k : timed_key kind a b t ≡ timed_key kind a' b' t' = cc (x, y, z) in
            absurd (cc (e, (bytes_beq_iff (timed_key kind a b t) (timed_key kind a' b' t')).1 k))
        | inr s ↦ ground (arith, e, s)
      ]
    ]

-- The keys of two plain places are the same exactly if the places are.
pub same_item-key_of : (i j : Item) → IsPlain i → IsPlain j → (key_of i == key_of j) ≡ same_item i j
unfolding same_item bytes_beq
same_item-key_of (user_session a b t) (user_session a' b' t') hi hj =
    same_names_iff (codes "user") a b t a' b' t' (omega arith) hi hj
same_item-key_of (user_session a b t) (frame a' b' t') hi hj = refl
same_item-key_of (user_session a b t) (phrase a' b' t') hi hj = refl
same_item-key_of (user_session a b t) (context a') hi hj = refl
same_item-key_of (frame a b t) (user_session a' b' t') hi hj = refl
same_item-key_of (frame a b t) (frame a' b' t') hi hj =
    same_names_iff (codes "audio") a b t a' b' t' (omega arith) hi hj
same_item-key_of (frame a b t) (phrase a' b' t') hi hj = refl
same_item-key_of (frame a b t) (context a') hi hj = refl
same_item-key_of (phrase a b t) (user_session a' b' t') hi hj = refl
same_item-key_of (phrase a b t) (frame a' b' t') hi hj = refl
same_item-key_of (phrase a b t) (phrase a' b' t') hi hj =
    same_names_iff (codes "text") a b t a' b' t' (omega arith) hi hj
same_item-key_of (phrase a b t) (context a') hi hj = refl
same_item-key_of (context a) (user_session a' b' t') hi hj = refl
same_item-key_of (context a) (frame a' b' t') hi hj = refl
same_item-key_of (context a) (phrase a' b' t') hi hj = refl
same_item-key_of (context a) (context a') hi hj = refl
