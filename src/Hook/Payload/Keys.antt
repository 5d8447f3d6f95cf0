-- ===== src/Hook/Payload/Keys.antt =====
-- The synthesized id tells apart whatever its five parts tell apart.
use pulse_narrator.Prelude.{
  ℕ, ◌<◌, ◌^◌, String, ◌<>◌, ◌≡◌, refl, sym, ap, ◌∙◌, List, true, false, arith, length,
}
use pulse_narrator.Prelude.Format.{decimal}
use pulse_narrator.Prelude.Digits.{
  colon_free, colon_free-hex, colon_free-decimal, hex_inj, decimal_inj,
}
use pulse_narrator.Hook.Payload.{
  HookKind, stop, notification, as_label, payload_content_hash, synthesized_id,
}
use Prim.Native.Char.{Char}
use text.Mathlib.TextLemmas.{append_cancel_left, nil-append, cons-append, append_assoc}

-- A text with a colon in it is not free of colons.
colon_free-ne : (s t : String) → colon_free (s <> (":" <> t)) ≡ false
colon_free-ne String.[] t = rw nil-append (rw cons-append refl)
colon_free-ne (String.◌∷◌ c s) t = rw (cons-append c s) (ground (arith, colon_free-ne s t))

abbrev tail : String → String
tail String.[] = ""
tail (String.◌∷◌ c s) = s

abbrev head : Char → String → Char
head d String.[] = d
head d (String.◌∷◌ c s) = c

tail-colon : (t : String) → tail (":" <> t) ≡ t
tail-colon t = ap tail (cons-append ":" "" t) ∙ nil-append t

-- What follows the last colon cannot hold another.
not_later :
    (y : Char) (c b d : String) → colon_free b ≡ true → ":" <> b ≡ String.◌∷◌ y c <> (":" <> d) → ⊥
not_later y c b d hb same =
    let rest : b ≡ c <> (":" <> d) =
      sym (tail-colon b) ∙ ap tail (same ∙ cons-append y c (":" <> d)) in
    cc (hb, rest, colon_free-ne c d)

-- A text splits at its last colon in one way.
split_last_colon :
    (a c b d : String)
    → colon_free b ≡ true
    → colon_free d ≡ true
    → a <> (":" <> b) ≡ c <> (":" <> d)
    → (a ≡ c) × (b ≡ d)
split_last_colon String.[] String.[] b d hb hd same =
    (refl, append_cancel_left ":" b d (sym (nil-append _) ∙ same ∙ nil-append _))
split_last_colon String.[] (String.◌∷◌ y c) b d hb hd same =
    absurd (not_later y c b d hb (sym (nil-append _) ∙ same))
split_last_colon (String.◌∷◌ x a) String.[] b d hb hd same =
    absurd (not_later x a d b hd (sym (nil-append _) ∙ sym same))
split_last_colon (String.◌∷◌ x a) (String.◌∷◌ y c) b d hb hd same =
    let split : String.◌∷◌ x (a <> (":" <> b)) ≡ String.◌∷◌ y (c <> (":" <> d)) =
      sym (cons-append x a _) ∙ same ∙ cons-append y c _ in
    let (heads, tails) = split_last_colon a c b d hb hd (ap tail split) in
    (cc (ap (head x) split, heads), tails)

colon_free-as_label : (k : HookKind) → colon_free (as_label k) ≡ true
unfolding as_label
colon_free-as_label stop = refl
colon_free-as_label notification = refl

as_label_inj : (j k : HookKind) → as_label j ≡ as_label k → j ≡ k
unfolding as_label
as_label_inj stop stop h = refl
as_label_inj stop notification h = absurd (cc h)
as_label_inj notification stop h = absurd (cc h)
as_label_inj notification notification h = refl

module _ (hash : List ℕ → ℕ) where
  -- The id with its parts split off from the right.
  from_right :
      (sid : String) (k : HookKind) (raw : List ℕ)
      → synthesized_id hash sid k raw
        ≡ (((sid <> (":" <> as_label k)) <> (":" <> payload_content_hash hash raw))
            <> (":" <> decimal (length raw)))
          <> (":" <> as_label k)
  unfolding synthesized_id
  from_right sid k raw = simp append_assoc

  -- If the hash is a 64-bit value, equal synthesized ids have equal sessions, kinds, content hashes
  -- and sizes.
  pub synthesized_id_inj :
      ((raw : List ℕ) → hash raw < 2 ^ 64)
      → (sid sid' : String) (k k' : HookKind) (raw raw' : List ℕ)
      → synthesized_id hash sid k raw ≡ synthesized_id hash sid' k' raw'
      → (sid ≡ sid') × (k ≡ k') × (hash raw ≡ hash raw') × (length raw ≡ length raw')
  unfolding payload_content_hash
  synthesized_id_inj is_u64 sid sid' k k' raw raw' same =
      let (front, labels) =
        split_last_colon _ _ _ _ (colon_free-as_label k) (colon_free-as_label k')
          (sym (from_right sid k raw) ∙ same ∙ from_right sid' k' raw') in
      let (front', sizes) =
        split_last_colon _ _ _ _ (colon_free-decimal (length raw))
          (colon_free-decimal (length raw')) front in
      let (front'', hashes) =
        split_last_colon _ _ _ _ (colon_free-hex 16 (hash raw)) (colon_free-hex 16 (hash raw'))
          front' in
      let (sids, labels') =
        split_last_colon sid sid' _ _ (colon_free-as_label k) (colon_free-as_label k') front'' in
      (
        sids,
        as_label_inj k k' labels,
        hex_inj 16 (hash raw) (hash raw') (is_u64 raw) (is_u64 raw') hashes,
        decimal_inj (length raw) (length raw') sizes,
      )
