-- ===== src/Utf8/Shared/Memory.antt =====
-- Bytes that stand somewhere in the caller's buffer, and what keeps them there.
use mathlib.Core.List.{append_assoc}
use che_machine_exec.Common.{
  ℕ, zero, suc, ◌<◌, ◌+◌, ◌≤◌, ◌≡◌, refl, sym, ap, ◌∙◌, subst, Option, none, some, [], ◌∷◌, ◌++◌,
  arith, length, take, drop, length-append, length-drop, leb, Bool-cases, inl, inr,
}
use che_machine_exec.Utf8.Runes.{Bytes}
use che_machine_exec.Utf8.Shared.{Slice, own, inside, show, fill, overwrite, join_data, keep}

abbrev pub IsAt : ℕ → Bytes → Bytes → Type 0
IsAt start bytes memory =
    (front : Bytes) × (back : Bytes) × (memory ≡ front ++ (bytes ++ back)) × (length front ≡ start)

drop-front : (xs ys : Bytes) → drop (length xs) (xs ++ ys) ≡ ys
drop-front [] ys = refl
drop-front (x ∷ xs) ys = drop-front xs ys

take-front : (xs ys : Bytes) → take (length xs) (xs ++ ys) ≡ xs
take-front [] ys = refl
take-front (x ∷ xs) ys = ap (λ r. x ∷ r) (take-front xs ys)

drop-inside : (n : ℕ) (xs ys : Bytes) → n ≤ length xs → drop n (xs ++ ys) ≡ drop n xs ++ ys
drop-inside zero xs ys le = refl
drop-inside (suc n) [] ys le = absurd (omega arith)
drop-inside (suc n) (x ∷ xs) ys le = drop-inside n xs ys (omega arith)

IsAt-show :
    (start : ℕ) (bytes memory : Bytes)
    → IsAt start bytes memory
    → show (inside start (length bytes)) memory ≡ bytes
unfolding show
IsAt-show start bytes memory (front, back, e, size) =
    ap (λ m. take (length bytes) (drop start m)) e
    ∙ ap (λ n. take (length bytes) (drop n (front ++ (bytes ++ back)))) (sym size)
    ∙ ap (take (length bytes)) (drop-front front (bytes ++ back))
    ∙ take-front bytes back

-- A chunk that is no longer than what stands before the bytes leaves them.
IsAt-fill :
    (start : ℕ) (bytes chunk memory : Bytes)
    → length chunk ≤ start
    → IsAt start bytes memory
    → IsAt start bytes (fill chunk memory)
unfolding fill
IsAt-fill start bytes chunk memory le (front, back, e, size) = (
  chunk ++ drop (length chunk) front,
  back,
  ap (λ m. chunk ++ drop (length chunk) m) e
      ∙ ap (λ m. chunk ++ m)
          (drop-inside (length chunk) front (bytes ++ back) (omega (arith, le, size)))
      ∙ sym (append_assoc chunk (drop (length chunk) front) (bytes ++ back)),
  omega (
    arith,
    length-append chunk (drop (length chunk) front),
    length-drop (length chunk) front,
    le,
    size,
  ),
)

-- A chunk that is appended in place stands behind them.
IsAt-overwrite :
    (start : ℕ) (bytes chunk memory : Bytes)
    → IsAt start bytes memory
    → IsAt start (bytes ++ chunk) (overwrite (start + length bytes) chunk memory)
unfolding overwrite
IsAt-overwrite start bytes chunk memory (front, back, e, size) =
    let far = drop (start + length bytes + length chunk) memory in
    let whole : memory ≡ (front ++ bytes) ++ back = e ∙ sym (append_assoc front bytes back) in
    let both : start + length bytes ≡ length (front ++ bytes) =
      omega (arith, length-append front bytes, size) in
    let taken : take (start + length bytes) memory ≡ front ++ bytes =
      ap (λ m. take (start + length bytes) m) whole
      ∙ ap (λ n. take n ((front ++ bytes) ++ back)) both
      ∙ take-front (front ++ bytes) back in
    (
      front,
      far,
      ap (λ t. t ++ (chunk ++ far)) taken
          ∙ append_assoc front bytes (chunk ++ far)
          ∙ ap (λ t. front ++ t) (sym (append_assoc bytes chunk far)),
      size,
    )

IsAt-behind :
    (start : ℕ) (front bytes memory : Bytes)
    → IsAt start (front ++ bytes) memory
    → IsAt (start + length front) bytes memory
IsAt-behind start front bytes memory (before, back, e, size) = (
  before ++ front,
  back,
  e
      ∙ ap (λ t. before ++ t) (append_assoc front bytes back)
      ∙ sym (append_assoc before front (bytes ++ back)),
  omega (arith, length-append before front, size),
)

-- The slice shows these bytes, and the caller's buffer has them where it says.
abbrev pub Holds : Slice → Bytes → Bytes → Type 0
Holds (own bytes) pending memory = bytes ≡ pending
Holds (inside start size) pending memory =
    (size ≡ length pending) × (0 < size) × IsAt start pending memory

abbrev pub IsJoined : Option ℕ → Bytes → Bytes → Type 0
IsJoined none bytes memory = Unit
IsJoined (some start) bytes memory = IsAt start bytes memory

-- The bytes of the slice are not overwritten when the chunk is read into the buffer.
abbrev pub IsSpared : Slice → Bytes → Type 0
IsSpared (own bytes) chunk = Unit
IsSpared (inside start size) chunk = length chunk ≤ start

pub Holds-show :
    (slice : Slice) (pending memory : Bytes)
    → Holds slice pending memory
    → show slice memory ≡ pending
unfolding show
Holds-show (own bytes) pending memory h = h
Holds-show (inside start size) pending memory (e, full, h) =
    ap (λ n. show (inside start n) memory) e ∙ IsAt-show start pending memory h

pub Holds-fill :
    (slice : Slice) (pending chunk memory : Bytes)
    → IsSpared slice chunk
    → Holds slice pending memory
    → Holds slice pending (fill chunk memory)
Holds-fill (own bytes) pending chunk memory s h = h
Holds-fill (inside start size) pending chunk memory s (e, full, h) =
    (e, full, IsAt-fill start pending chunk memory s h)

fill-IsAt : (chunk memory : Bytes) → IsAt 0 chunk (fill chunk memory)
unfolding fill
fill-IsAt chunk memory = ([], drop (length chunk) memory, refl, refl)

-- The joined data stands where `join_data` says.
pub join_data-IsJoined :
    (slice : Slice) (pending chunk memory : Bytes)
    → Holds slice pending (fill chunk memory)
    → let joined = join_data slice chunk (fill chunk memory) in
      IsJoined joined.0 (pending ++ chunk) joined.1
unfolding join_data
join_data-IsJoined (own []) [] chunk memory h = fill-IsAt chunk memory
join_data-IsJoined (own []) (p ∷ pending) chunk memory h = absurd (cc h)
join_data-IsJoined (own (b ∷ bytes)) pending chunk memory h = tt
join_data-IsJoined (inside start zero) pending chunk memory (e, full, h) = absurd (omega arith)
join_data-IsJoined (inside start (suc size)) pending chunk memory (e, full, h) =
    let m = fill chunk memory in
    elim (Bool-cases (leb (start + suc size + length chunk) (length m))) [
      | inl k ↦
          rw (k, join_data)
            (subst (λ n. IsAt start (pending ++ chunk) (overwrite (start + n) chunk m)) (sym e)
              (IsAt-overwrite start pending chunk m h))
      | inr k ↦ rw (k, join_data) tt
    ]

pub keep-Holds :
    (start : Option ℕ) (size : ℕ) (front pending memory : Bytes)
    → size ≡ length (front ++ pending)
    → IsJoined start (front ++ pending) memory
    → Holds (keep start size pending) pending memory
unfolding keep
keep-Holds start size front [] memory e h = refl
keep-Holds none size front (b ∷ pending) memory e h = refl
keep-Holds (some start) size front (b ∷ pending) memory e h = (
  refl,
  omega arith,
  subst (λ n. IsAt n (b ∷ pending) memory) (omega (arith, e, length-append front (b ∷ pending)))
      (IsAt-behind start front (b ∷ pending) memory h),
)
