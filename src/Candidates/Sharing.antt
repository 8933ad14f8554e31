-- ===== src/Candidates/Sharing.antt =====
-- A bundle of candidates as a text, in internal/nat/candidate.go.
use mathlib.Core.List.{reverse-append, reverse-reverse}
use korik.Prelude.{
  All, All-reverse, Bool, List, Str, [], ap, append-nil, arith, false, filterb, int_eq, is_space,
  not, pos, refl, reverse, some, sym, trim_left, trim_right, trim_space, true, ℕ, ◌++◌, ◌∙◌, ◌∷◌,
  ◌≟◌, ◌≡◌, ◌≢◌,
}
use korik.Storage.{Codec}
use korik.Candidates.{
  Base64, Bundle, Candidate, check_bundle, cleaned, decode_bundle, decoded, encode_bundle,
}

-- A text without white space.
abbrev pub NoSpace : Str → Type 0
NoSpace = All (λ c. is_space c ≡ false)

abbrev pub OnlySpace : Str → Type 0
OnlySpace = All (λ c. is_space c ≡ true)

trim_left-space :
    (pad s : Str) → OnlySpace pad → trim_left is_space (pad ++ s) ≡ trim_left is_space s
unfolding trim_left
trim_left-space [] s h = refl
trim_left-space (c ∷ pad) s h = rw h.0 (trim_left-space pad s h.1)

trim_left-NoSpace : (s rest : Str) → NoSpace s → s ≢ [] → trim_left is_space (s ++ rest) ≡ s ++ rest
unfolding trim_left
trim_left-NoSpace [] rest h n = absurd (n refl)
trim_left-NoSpace (c ∷ s) rest h n = rw h.0 refl

filterb-keeps : (p : ℕ → Bool) (s : Str) → All (λ c. p c ≡ true) s → filterb p s ≡ s
filterb-keeps p [] h = refl
filterb-keeps p (c ∷ s) h = ground (arith, h.0, filterb-keeps p s h.1)

reverse-nonempty : (s : Str) → s ≢ [] → reverse s ≢ []
reverse-nonempty s n e = n (sym (reverse-reverse s) ∙ ap reverse e)

pub trim_space-padded :
    (lead code trail : Str)
    → OnlySpace lead
    → NoSpace code
    → code ≢ []
    → OnlySpace trail
    → trim_space (lead ++ (code ++ trail)) ≡ code
unfolding trim_space trim_right
trim_space-padded lead code trail l h n t =
    let left : trim_left is_space (lead ++ (code ++ trail)) ≡ code ++ trail =
      trim_left-space lead (code ++ trail) l ∙ trim_left-NoSpace code trail h n in
    let right : trim_left is_space (reverse trail ++ reverse code) ≡ reverse code =
      trim_left-space (reverse trail) (reverse code) (All-reverse (λ c. is_space c ≡ true) trail t)
      ∙ sym (ap (trim_left is_space) (append-nil (reverse code)))
      ∙ trim_left-NoSpace (reverse code) [] (All-reverse (λ c. is_space c ≡ false) code h)
          (reverse-nonempty code n)
      ∙ append-nil (reverse code) in
    rw (left, reverse-append code trail, right) (reverse-reverse code)

-- What RFC 4648 and encoding/json promise for one bundle: its text decodes, and has no white space.
pub record IsShareable (b : Base64) (json : Codec Bundle) (bundle : Bundle) : Type 0 where
  pub base64_back : b.decode_raw (b.encode_raw (json.encode bundle)) ≡ some (json.encode bundle)
  pub json_back : json.decode (json.encode bundle) ≡ some bundle
  pub no_space : NoSpace (b.encode_raw (json.encode bundle))
  pub not_empty : b.encode_raw (json.encode bundle) ≢ []

-- No byte of a text without white space is a blank or a newline.
NoSpace-breaks :
    (s : Str) → NoSpace s → All (λ c. not (c ≟ 10) ≡ true) s × All (λ c. not (c ≟ 32) ≡ true) s
unfolding is_space
NoSpace-breaks [] h = (tt, tt)
NoSpace-breaks (c ∷ s) h =
    let (newlines, blanks) = NoSpace-breaks s h.1 in
    ((ground (arith, h.0), newlines), (ground (arith, h.0), blanks))

cleaned-padded :
    (lead code trail : Str)
    → OnlySpace lead
    → NoSpace code
    → code ≢ []
    → OnlySpace trail
    → cleaned (lead ++ (code ++ trail)) ≡ code
unfolding cleaned
cleaned-padded lead code trail l h n t =
    let (newlines, blanks) = NoSpace-breaks code h in
    rw (trim_space-padded lead code trail l h n t) (
      ap (filterb (λ c. not (c ≟ 32))) (filterb-keeps (λ c. not (c ≟ 10)) code newlines)
      ∙ filterb-keeps (λ c. not (c ≟ 32)) code blanks)

abbrev pub bundle_of : Str → Str → List Candidate → Bundle
bundle_of jid device_id cands = record {
  version = pos 1;
  jid = jid;
  device_id = device_id;
  candidates = cands;
}

-- A bundle with a candidate that is shared as a text, and pasted with white space around it, is read
-- back as it was.
pub decode_bundle-encode_bundle :
    (b : Base64) (json : Codec Bundle) (jid device_id : Str) (c : Candidate)
    (cands : List Candidate) (lead trail : Str)
    → IsShareable b json (bundle_of jid device_id (c ∷ cands))
    → OnlySpace lead
    → OnlySpace trail
    → decode_bundle b json (lead ++ (encode_bundle b json jid device_id (c ∷ cands) ++ trail))
      ≡ decoded (bundle_of jid device_id (c ∷ cands))
unfolding encode_bundle check_bundle int_eq decode_bundle
decode_bundle-encode_bundle b json jid device_id c cands lead trail h l t =
    let bundle = bundle_of jid device_id (c ∷ cands) in
    let code = b.encode_raw (json.encode bundle) in
    let clean = cleaned-padded lead code trail l h.no_space h.not_empty t in
    rw (decode_bundle, clean, h.base64_back, h.json_back) refl
