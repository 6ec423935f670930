-- ===== src/Algorithms/Codec/Headers.antt =====
-- crates/hataori-algorithms/src/batch.rs: the header of an encoded batch, written and read.
use hataori_rs.Prelude.{
  ℕ, zero, suc, ◌+◌, ◌*◌, ◌^◌, ◌<◌, ◌≡◌, refl, sym, ◌∙◌, ap, subst, true, List, [], ◌∷◌, ◌++◌, map,
  append_assoc, append-nil, ok, ltb, leb, eqb, length, length-append, take, drop,
  take-length_append, drop-length_append, All, arith,
}
use hataori_rs.Prelude.Bytes.{to_le, length-to_le, from_le-to_le}
use hataori_rs.Runtime.Message.{Segments}
use hataori_rs.Algorithms.Codec.{
  put, take_number, put_segments, take_numbers, take_table, take_item,
}

-- `rest` is what a header has from `at_` on.
pub record At (header : List ℕ) (at_ : ℕ) (rest : List ℕ) : Type 0 where
  pub ahead : drop at_ header ≡ rest
  pub size : at_ + length rest ≡ length header

abbrev pub Fits : ℕ → Type 0
Fits n = n < 2 ^ 64

abbrev pub numbers : List ℕ → List ℕ
numbers [] = []
numbers (n ∷ ns) = to_le 8 n ++ numbers ns

-- Each item's number of segments, and their lengths.
abbrev pub table : List (List ℕ) → List ℕ
table [] = []
table (item ∷ items) = to_le 8 (length item) ++ (numbers item ++ table items)

drop-nil : {X : Type 0} (n : ℕ) → drop {A = X} n [] ≡ []
drop-nil zero = refl
drop-nil (suc n) = refl

drop-drop : {X : Type 0} (n m : ℕ) (xs : List X) → drop (n + m) xs ≡ drop m (drop n xs)
drop-drop zero m xs = ap (λ k. drop k xs) (omega arith)
drop-drop (suc n) m [] = drop-nil (suc n + m) ∙ sym (drop-nil m)
drop-drop {X} (suc n) m (x ∷ xs) =
    let next : suc n + m ≡ suc (n + m) = omega arith in
    ap (λ k. drop {A = X} k (x ∷ xs)) next ∙ drop-drop n m xs

pub put-ok : (n : ℕ) (h : List ℕ) → Fits n → put n h ≡ ok (h ++ to_le 8 n)
unfolding put
put-ok n h small = let test : ltb n (2 ^ 64) ≡ true = ground (arith, small) in rw test refl

pub take_number-At :
    (header : List ℕ) (at_ n : ℕ) (rest : List ℕ)
    → At header at_ (to_le 8 n ++ rest)
    → Fits n
    → Fits (length header)
    → (take_number header at_ ≡ ok (n, at_ + 8)) × At header (at_ + 8) rest
unfolding take_number
take_number-At header at_ n rest v small fits =
    let width : length (to_le 8 n) ≡ 8 = length-to_le 8 n in
    let size : length (to_le 8 n ++ rest) ≡ 8 + length rest =
      omega (arith, length-append (to_le 8 n) rest, width) in
    let inside : leb (at_ + 8) (length header) ≡ true = ground (arith, v.size, size) in
    let near : ltb (at_ + 8) (2 ^ 64) ≡ true = ground (arith, v.size, size, fits) in
    let front : take 8 (to_le 8 n ++ rest) ≡ to_le 8 n =
      subst (λ k. take k (to_le 8 n ++ rest) ≡ to_le 8 n) width
        (take-length_append (to_le 8 n) rest) in
    let back : drop 8 (to_le 8 n ++ rest) ≡ rest =
      subst (λ k. drop k (to_le 8 n ++ rest) ≡ rest) width (drop-length_append (to_le 8 n) rest) in
    (
      rw (near, inside, v.ahead, front, from_le-to_le 8 n (omega (arith, small))) refl,
      record {
        ahead = drop-drop at_ 8 header ∙ ap (drop 8) v.ahead ∙ back;
        size = omega (arith, v.size, size);
      },
    )

pub take_numbers-At :
    (header : List ℕ) (at_ : ℕ) (ns : List ℕ) (rest : List ℕ)
    → At header at_ (numbers ns ++ rest)
    → All Fits ns
    → Fits (length header)
    → (end : ℕ) × (take_numbers (length ns) header at_ ≡ ok (ns, end)) × At header end rest
unfolding take_numbers
take_numbers-At header at_ [] rest v small fits = (at_, refl, v)
take_numbers-At header at_ (n ∷ ns) rest v small fits =
    let w : At header at_ (to_le 8 n ++ (numbers ns ++ rest)) =
      subst (At header at_) (append_assoc (to_le 8 n) (numbers ns) rest) v in
    let (e, next) = take_number-At header at_ n (numbers ns ++ rest) w small.0 fits in
    let (end, e', behind) = take_numbers-At header (at_ + 8) ns rest next small.1 fits in
    (end, rw (e, e') refl, behind)

pub length-numbers : (ns : List ℕ) → length (numbers ns) ≡ 8 * length ns
length-numbers [] = refl
length-numbers (n ∷ ns) =
    omega (arith, length-append (to_le 8 n) (numbers ns), length-to_le 8 n, length-numbers ns)

pub take_table-At :
    (header : List ℕ) (at_ : ℕ) (items : List (List ℕ))
    → At header at_ (table items)
    → All (λ item. Fits (length item) × All Fits item) items
    → length header < 2 ^ 63
    → take_table (length items) header at_ ≡ ok (items, length header)
unfolding take_table
take_table-At header at_ [] v small fits =
    let end : at_ ≡ length header = omega (arith, v.size) in ap (λ k. ok ([], k)) end
take_table-At header at_ (item ∷ items) v small fits =
    let wide : Fits (length header) = omega (arith, fits) in
    let (e, next) =
      take_number-At header at_ (length item) (numbers item ++ table items) v small.0.0 wide in
    let (end, e', behind) =
      take_numbers-At header (at_ + 8) item (table items) next small.0.1 wide in
    let room : ltb (length item * 8) (2 ^ 63) ≡ true =
      ground
        (arith, fits, next.size, length-append (numbers item) (table items), length-numbers item) in
    rw (e, room, e', take_table-At header end items behind small.1 fits) refl

-- The lengths of an item's segments, and the segments themselves.
pub put_segments-numbers :
    (segments : Segments) (h : List ℕ) (out : Segments)
    → All Fits (map length segments)
    → put_segments segments h out ≡ ok (h ++ numbers (map length segments), out ++ segments)
unfolding put_segments
put_segments-numbers [] h out small = rw (append-nil h, append-nil out) refl
put_segments-numbers (s ∷ segments) h out small =
    rw
      (
        put-ok (length s) h small.0,
        put_segments-numbers segments (h ++ to_le 8 (length s)) (out ++ s ∷ []) small.1,
        append_assoc h (to_le 8 (length s)) (numbers (map length segments)),
        append_assoc out (s ∷ []) segments,
      )
      refl

pub take_item-append :
    (segments rest : Segments)
    → take_item (map length segments) (segments ++ rest) ≡ ok (segments, rest)
unfolding take_item
take_item-append [] rest = refl
take_item-append (s ∷ segments) rest =
    let same : eqb (length s) (length s) ≡ true = ground arith in
    rw (same, take_item-append segments rest) refl
