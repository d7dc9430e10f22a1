-- ===== src/ContextStore/Parsing.antt =====
-- What `strings.Split` and `ParseInt` find in the keys that the store writes.
use openai_gate.Base.{
  ◌≡◌, refl, sym, ap, ◌∙◌, true, List, [], ◌∷◌, ◌++◌, append_assoc, arith, Bytes, some,
}
use openai_gate.Text.Order.{starts_with}
use openai_gate.Text.Parts.{split, split-append, split-Lacks, Lacks}
use openai_gate.Text.Decimal.Int.{ℤ, IsInt64, format_int, parse-format_int, format_int-Lacks}
use openai_gate.ContextStore.Keys.{pair_prefix, timed_key}
use openai_gate.ContextStore.{source_and_time, phrase_of, frame_of}

abbrev pub NoColon : Bytes → Type 0
NoColon = Lacks b':'

-- A text with a given prefix is the prefix and a rest.
pub starts_with-cases : (p k : Bytes) → starts_with p k ≡ true → (rest : Bytes) × (k ≡ p ++ rest)
unfolding starts_with
starts_with-cases [] k h = (k, refl)
starts_with-cases (c ∷ p) [] h = cc
starts_with-cases (c ∷ p) (d ∷ k) h =
    let (rest, e) = starts_with-cases p k (ground arith) in (rest, ground (arith, e))

-- A key of the store splits into its kind, its two names and its time.
pub split-timed_key :
    (kind a b : Bytes) (t : ℤ)
    → NoColon kind
    → NoColon a
    → NoColon b
    → split b':' (timed_key kind a b t) ≡ kind ∷ a ∷ b ∷ format_int t ∷ []
split-timed_key kind a b t hk ha hb = rw (split-append b':' kind _ hk) (
    rw (split-append b':' a _ ha) (
      rw (split-append b':' b _ hb)
        (rw (split-Lacks b':' (format_int t) (format_int-Lacks t b':' (omega arith))) refl)))

-- A key under `kind:name:` has that name in its second place.
pub name_under :
    (kind name a b : Bytes) (t : ℤ)
    → NoColon kind
    → NoColon name
    → NoColon a
    → NoColon b
    → starts_with (kind ++ b':' ∷ (name ++ b':' ∷ [])) (timed_key kind a b t) ≡ true
    → a ≡ name
name_under kind name a b t hk hn ha hb h =
    let (rest, e) = starts_with-cases _ _ h in
    let parts : kind ∷ a ∷ b ∷ format_int t ∷ [] ≡ kind ∷ name ∷ split b':' rest =
      sym (split-timed_key kind a b t hk ha hb)
      ∙ ap (split b':') (
          e
          ∙ append_assoc kind _ rest
          ∙ ap (λ (s : Bytes). kind ++ b':' ∷ s) (append_assoc name _ rest))
      ∙ split-append b':' kind _ hk
      ∙ ap (λ (ps : List Bytes). kind ∷ ps) (split-append b':' name rest hn) in
    cc

-- A key under `kind:name:source:` has both.
pub names_under :
    (kind name source a b : Bytes) (t : ℤ)
    → NoColon kind
    → NoColon name
    → NoColon source
    → NoColon a
    → NoColon b
    → starts_with (pair_prefix kind name source ++ b':' ∷ []) (timed_key kind a b t) ≡ true
    → (a ≡ name) × (b ≡ source)
names_under kind name source a b t hk hn hs ha hb h =
    let (rest, e) = starts_with-cases _ _ h in
    let parts : kind ∷ a ∷ b ∷ format_int t ∷ [] ≡ kind ∷ name ∷ source ∷ split b':' rest =
      sym (split-timed_key kind a b t hk ha hb)
      ∙ ap (split b':') (e ∙ simp append_assoc)
      ∙ split-append b':' kind (name ++ b':' ∷ (source ++ b':' ∷ rest)) hk
      ∙ ap (λ (ps : List Bytes). kind ∷ ps) (split-append b':' name (source ++ b':' ∷ rest) hn)
      ∙ ap (λ (ps : List Bytes). kind ∷ name ∷ ps) (split-append b':' source rest hs) in
    (cc, cc)

pub source_and_time-timed_key :
    (kind a b : Bytes) (t : ℤ)
    → NoColon kind
    → NoColon a
    → NoColon b
    → IsInt64 t
    → source_and_time (split b':' (timed_key kind a b t)) ≡ some (b, t)
unfolding source_and_time
source_and_time-timed_key kind a b t hk ha hb ht =
    rw (split-timed_key kind a b t hk ha hb) (ground (arith, parse-format_int t ht))

-- A key of the store gives back the source and the time that it was made from.
pub phrase_of-timed_key :
    (kind a b value : Bytes) (t : ℤ)
    → NoColon kind
    → NoColon a
    → NoColon b
    → IsInt64 t
    → phrase_of (timed_key kind a b t, value)
      ≡ some (record { time = t; source = b; phrase = value })
unfolding phrase_of
phrase_of-timed_key kind a b value t hk ha hb ht =
    ground (arith, source_and_time-timed_key kind a b t hk ha hb ht)

pub frame_of-timed_key :
    (kind a b value : Bytes) (t : ℤ)
    → NoColon kind
    → NoColon a
    → NoColon b
    → IsInt64 t
    → frame_of (timed_key kind a b t, value) ≡ some (t, value)
unfolding frame_of
frame_of-timed_key kind a b value t hk ha hb ht =
    ground (arith, source_and_time-timed_key kind a b t hk ha hb ht)

-- Names without a colon and int64 times can be told from the key.
pub timed_key-injective :
    (kind a a' b b' : Bytes) (t t' : ℤ)
    → NoColon kind
    → NoColon a
    → NoColon a'
    → NoColon b
    → NoColon b'
    → IsInt64 t
    → IsInt64 t'
    → timed_key kind a b t ≡ timed_key kind a' b' t'
    → (a ≡ a') × (b ≡ b') × (t ≡ t')
timed_key-injective kind a a' b b' t t' hk ha ha' hb hb' ht ht' e =
    let parts =
      sym (split-timed_key kind a b t hk ha hb)
      ∙ ap (split b':') e
      ∙ split-timed_key kind a' b' t' hk ha' hb' in
    let times =
      sym (source_and_time-timed_key kind a b t hk ha hb ht)
      ∙ ap (λ (k : Bytes). source_and_time (split b':' k)) e
      ∙ source_and_time-timed_key kind a' b' t' hk ha' hb' ht' in
    (cc, cc, cc)
