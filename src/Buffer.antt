-- ===== src/Buffer.antt =====
-- utils/buffer: a message in several parts. A part's array holds one byte more than its length, a
-- null byte.
use c3qo.Base.{
  ◌≡◌, refl, ap, arith, false, ℕ, Option, none, some, List, [], ◌∷◌, ◌++◌, take, length, ltb,
  if◌then◌else◌,
}

pub record BufferPart : Type 0 where
  pub bytes : List ℕ
  pub len : ℕ

pub record Buffer : Type 0 where
  pub parts : List BufferPart

-- `struct buffer buf;`
abbrev pub no_parts : Buffer
no_parts = record { parts = [] }

unfoldable pub part_of : List ℕ → ℕ → BufferPart
part_of mem size = record { bytes = take size mem ++ 0 ∷ []; len = size }

-- `mem` is the memory at `data`; a copy of more than is there is undefined.
unfoldable pub push_back : Buffer → List ℕ → ℕ → Option Buffer
unfolding part_of
push_back b mem size =
    if ltb (length mem) size
    then none
    else some (record { parts = b.parts ++ part_of mem size ∷ [] })

pub clear : Buffer → Buffer
clear b = record { parts = [] }

pub take-length {ℓ} : {A : Type ℓ} (m : List A) → take (length m) m ≡ m
take-length [] = refl
take-length (x ∷ m) = ap (◌∷◌ x) (take-length m)

-- A part as `push_back` makes it: its bytes, then a null byte.
abbrev pub whole : List ℕ → BufferPart
whole m = record { bytes = m ++ 0 ∷ []; len = length m }

pub push_back-whole :
    (buf : Buffer) (m : List ℕ)
    → push_back buf m (length m) ≡ some (record { parts = buf.parts ++ whole m ∷ [] })
unfolding push_back part_of
push_back-whole buf m =
    let fits : ltb (length m) (length m) ≡ false = ground arith in rw (fits, take-length m)

pub take-whole : (m : List ℕ) → take (length m) (m ++ 0 ∷ []) ≡ m
take-whole [] = refl
take-whole (x ∷ m) = ap (◌∷◌ x) (take-whole m)
