-- ===== src/Stun/Attributes.antt =====
-- The walk over the attributes of a STUN message in internal/nat/stun.go.
use korik.Prelude.{
  All, Bool-cases, List, Option, [], append_assoc, arith, drop, drop-append_length, false, inl, inr,
  length, length-append, length-drop, ltb, refl, some, suc, take, take-append_length, zero, ℕ, ◌%◌,
  ◌*◌, ◌++◌, ◌+◌, ◌-◌, ◌/◌, ◌<◌, ◌∙◌, ◌∷◌, ◌≡◌, ◌≤◌,
}
use korik.Stun.{PublicAddr, padded, put16, read_attribute, uint16_at, walk_attributes}

unfoldable pub zeros : ℕ → List ℕ
zeros zero = []
zeros (suc n) = 0 ∷ zeros n

length-zeros : (n : ℕ) → length (zeros n) ≡ n
unfolding zeros
length-zeros zero = refl
length-zeros (suc n) = omega (arith, length-zeros n)

-- An attribute as RFC 5389 writes it: type, length, value, and zeros up to a multiple of 4.
unfoldable pub attribute : ℕ → List ℕ → List ℕ
unfolding zeros
attribute attr_type val =
    put16 attr_type ++ put16 (length val) ++ val ++ zeros (padded (length val) - length val)

-- The attributes of a message, one after the other.
unfoldable pub attributes : List (ℕ × List ℕ) → List ℕ
unfolding attribute
attributes [] = []
attributes ((attr_type, val) ∷ attrs) = attribute attr_type val ++ attributes attrs

-- What a reader that takes the attributes one by one remembers.
unfoldable pub read_all : List (ℕ × List ℕ) → List ℕ → Option PublicAddr → Option PublicAddr
read_all [] tx_id mapped = mapped
read_all ((attr_type, val) ∷ attrs) tx_id mapped =
    read_all attrs tx_id (read_attribute attr_type val tx_id mapped)

-- The type and the length of an attribute have 16 bits.
abbrev pub IsAttribute : ℕ × List ℕ → Type 0
IsAttribute (attr_type, val) = (attr_type < 65_536) × (length val < 65_532)

-- A round of the walk, where the whole attribute is there.
walk-cons :
    (rounds t u l k attr_type n : ℕ) (tail tx_id : List ℕ) (mapped : Option PublicAddr)
    → t * 256 + u ≡ attr_type
    → l * 256 + k ≡ n
    → n < 65_532
    → padded n ≤ length tail
    → walk_attributes (suc rounds) (t ∷ u ∷ l ∷ k ∷ tail) tx_id mapped
      ≡ walk_attributes rounds
          (drop (padded n) tail)
          tx_id
          (read_attribute attr_type (take n tail) tx_id mapped)
unfolding walk_attributes
walk-cons rounds t u l k attr_type n tail tx_id mapped te ne lt fits =
    let no_wrap : (4 + n) % 65_536 - 4 ≡ n = omega arith in
    let e : 4 + padded n ≡ suc (suc (suc (suc (padded n)))) = omega arith in
    let padding : n ≤ padded n = ground arith in
    let a : ltb (suc (suc (suc (suc (length tail))))) 4 ≡ false = ground arith in
    let b : ltb (suc (suc (suc (suc (length tail))))) (n + 4) ≡ false = ground arith in
    let d : ltb (suc (suc (suc (suc (length tail))))) (padded n + 4) ≡ false = ground arith in
    rw (te, ne, no_wrap, e, a, b, d) refl

-- A round of the walk reads one attribute.
walk-attribute :
    (rounds attr_type : ℕ) (val rest tx_id : List ℕ) (mapped : Option PublicAddr)
    → attr_type < 65_536
    → length val < 65_532
    → walk_attributes (suc rounds) (attribute attr_type val ++ rest) tx_id mapped
      ≡ walk_attributes rounds rest tx_id (read_attribute attr_type val tx_id mapped)
unfolding attribute
walk-attribute rounds attr_type val rest tx_id mapped h k =
    let n = length val in
    let pad = zeros (padded n - n) in
    let tail = (val ++ pad) ++ rest in
    let type_back : attr_type / 256 % 256 * 256 + attr_type % 256 ≡ attr_type = omega arith in
    let length_back : n / 256 % 256 * 256 + n % 256 ≡ n = omega arith in
    let padding : n ≤ padded n = ground arith in
    let size : length (val ++ pad) ≡ padded n =
      omega (arith, length-append val pad, length-zeros (padded n - n), padding) in
    let got : take n tail ≡ val =
      rw (append_assoc val pad rest) (take-append_length val (pad ++ rest) n refl) in
    let left : drop (padded n) tail ≡ rest = drop-append_length (val ++ pad) rest (padded n) size in
    let total : length tail ≡ padded n + length rest =
      omega (arith, length-append (val ++ pad) rest, size) in
    let step =
      walk-cons rounds (attr_type / 256 % 256) (attr_type % 256) (n / 256 % 256) (n % 256) attr_type
        n tail tx_id mapped type_back length_back k (omega (arith, total)) in
    step ∙ rw (got, left)

-- The walk over well-formed attributes takes them one by one, if there are rounds enough.
pub walk-attributes :
    (attrs : List (ℕ × List ℕ)) (rounds : ℕ) (tx_id : List ℕ) (mapped : Option PublicAddr)
    → All IsAttribute attrs
    → length attrs < rounds
    → walk_attributes rounds (attributes attrs) tx_id mapped ≡ some (read_all attrs tx_id mapped)
unfolding attributes read_all
walk-attributes attrs zero tx_id mapped h k = absurd (omega arith)
walk-attributes [] (suc rounds) tx_id mapped h k = unfold walk_attributes in ground arith
walk-attributes ((attr_type, val) ∷ attrs) (suc rounds) tx_id mapped h k =
    walk-attribute rounds attr_type val (attributes attrs) tx_id mapped h.0.0 h.0.1
    ∙ walk-attributes attrs rounds tx_id (read_attribute attr_type val tx_id mapped) h.1
        (omega arith)

-- An attribute takes four bytes at least, so a walk with a round for each byte comes to its end.
pub walk_attributes-ends :
    (rounds : ℕ) (body tx_id : List ℕ) (mapped : Option PublicAddr)
    → length body < rounds
    → (r : Option PublicAddr) × (walk_attributes rounds body tx_id mapped ≡ some r)
unfolding walk_attributes
walk_attributes-ends zero body tx_id mapped h = absurd (omega arith)
walk_attributes-ends (suc rounds) body tx_id mapped h =
    let n = uint16_at body 2 in
    let mapped' =
      read_attribute (uint16_at body 0) (take ((4 + n) % 65_536 - 4) (drop 4 body)) tx_id mapped in
    elim (Bool-cases (ltb (length body) 4)) [
      | inl short ↦ (mapped, ground (arith, short))
      | inr long ↦ elim (Bool-cases (ltb (length body) (n + 4))) [
        | inl cut ↦ (mapped, ground (arith, long, cut))
        | inr whole ↦ elim (Bool-cases (ltb (length body) (padded n + 4))) [
          | inl last ↦ (mapped', ground (arith, long, whole, last))
          | inr more ↦
              let left = drop (4 + padded n) body in
              let fewer : length left < rounds =
                ground (arith, length-drop (4 + padded n) body, long) in
              let (r, e) = walk_attributes-ends rounds left tx_id mapped' fewer in
              (r, ground (arith, long, whole, more, e))
        ]
      ]
    ]
