-- ===== src/Algorithms/Codec/Trip.antt =====
-- crates/hataori-algorithms/src/batch.rs: a batch that is encoded and decoded.
use hataori_rs.Prelude.{
  ℕ, zero, suc, ◌+◌, ◌^◌, ◌≤◌, ◌<◌, ◌≡◌, refl, sym, ap, subst, true, false, some, List, [], ◌∷◌,
  ◌++◌, map, append_assoc, append-nil, Result, ok, ltb, eqb, length, length-append, drop, get_elem?,
  drop-length_append, All, arith,
}
use hataori_rs.Prelude.Bytes.{to_le, length-to_le}
use hataori_rs.Algorithms.{LocalMode}
use hataori_rs.Algorithms.Controller.{BatchAction}
use hataori_rs.Runtime.Errors.{ActionError}
use hataori_rs.Runtime.Message.{Segments}
use hataori_rs.Algorithms.Codec.{
  max_batch_items, take_table, sum_counts, put_values, encode_nested, take_values, decode_nested,
  mode_code, mode_from, encode_batch, decode_batch,
}
use hataori_rs.Algorithms.Codec.Headers.{
  At, Fits, numbers, table, put-ok, take_number-At, take_table-At, put_segments-numbers,
  take_item-append, length-numbers,
}

abbrev pub all_segments : List Segments → Segments
all_segments [] = []
all_segments (part ∷ parts) = part ++ all_segments parts

abbrev pub lengths_of : List Segments → List (List ℕ)
lengths_of [] = []
lengths_of (part ∷ parts) = map length part ∷ lengths_of parts

length-map : {X Y : Type 0} (f : X → Y) (xs : List X) → length (map f xs) ≡ length xs
length-map f [] = refl
length-map f (x ∷ xs) = ap suc (length-map f xs)

sum_counts-all :
    (total : ℕ) (parts : List Segments)
    → Fits (total + length (all_segments parts))
    → sum_counts total (lengths_of parts) ≡ ok (total + length (all_segments parts))
unfolding sum_counts
sum_counts-all total [] fits = ap ok (omega arith)
sum_counts-all total (part ∷ parts) fits =
    let size = length-append part (all_segments parts) in
    let same = length-map length part in
    let near : ltb (total + length (map length part)) (2 ^ 64) ≡ true =
      ground (arith, fits, size, same) in
    rw (near, same, sum_counts-all (total + length part) parts (omega (arith, fits, size)))
      (ap ok (omega (arith, size)))

length-table :
    (parts : List Segments) → length (all_segments parts) ≤ length (table (lengths_of parts))
length-table [] = omega arith
length-table (part ∷ parts) = omega (
  arith,
  length-append part (all_segments parts),
  length-append (to_le 8 (length (map length part)))
      (numbers (map length part) ++ table (lengths_of parts)),
  length-append (numbers (map length part)) (table (lengths_of parts)),
  length-numbers (map length part),
  length-map length part,
  length-table parts,
)

mode_from-code : (m : LocalMode) → mode_from (some (mode_code m)) ≡ ok m
unfolding mode_from
mode_from-code LocalMode.sequential = refl
mode_from-code LocalMode.outer = refl
mode_from-code LocalMode.inner = refl

-- The element at the head of what is left.
get_elem?-drop :
    {X : Type 0} (n : ℕ) (xs : List X) (x : X) (rest : List X)
    → drop n xs ≡ x ∷ rest
    → get_elem? xs n ≡ some x
get_elem?-drop zero [] x rest e = absurd cc
get_elem?-drop zero (y ∷ xs) x rest e = ground arith
get_elem?-drop (suc n) [] x rest e = absurd cc
get_elem?-drop (suc n) (y ∷ xs) x rest e = get_elem?-drop n xs x rest e

module _ {T : Type 0} (encode_item : T → Result ActionError Segments)
    (decode_item : Segments → Result ActionError T) where
  -- Each value has its part as its encoding, and is what the part decodes to.
  abbrev pub Coded : List T → List Segments → Type 0
  Coded [] [] = Unit
  Coded [] (part ∷ parts) = ⊥
  Coded (value ∷ values) [] = ⊥
  Coded (value ∷ values) (part ∷ parts) =
      ((encode_item value ≡ ok part)
        × (decode_item part ≡ ok value)
        × Fits (length part)
        × All Fits (map length part))
      × Coded values parts

  put_values-table :
      (values : List T) (parts : List Segments) (h : List ℕ) (out : Segments)
      → Coded values parts
      → put_values encode_item decode_item values h out
        ≡ ok (h ++ table (lengths_of parts), out ++ all_segments parts)
  unfolding put_values
  put_values-table [] [] h out c = rw (append-nil h, append-nil out) refl
  put_values-table [] (part ∷ parts) h out c = absurd c
  put_values-table (value ∷ values) [] h out c = absurd c
  put_values-table (value ∷ values) (part ∷ parts) h out ((coded, _, few, small), c) =
      let h' = h ++ to_le 8 (length part) in
      rw
        (
          coded,
          put-ok (length part) h few,
          put_segments-numbers part h' out small,
          put_values-table values parts (h' ++ numbers (map length part)) (out ++ part) c,
          append_assoc h' (numbers (map length part)) (table (lengths_of parts)),
          append_assoc h (to_le 8 (length part))
              (numbers (map length part) ++ table (lengths_of parts)),
          append_assoc out part (all_segments parts),
          length-map length part,
        )
        refl

  take_values-all :
      (values : List T) (parts : List Segments)
      → Coded values parts
      → take_values encode_item decode_item (lengths_of parts) (all_segments parts) ≡ ok values
  unfolding take_values
  take_values-all [] [] c = refl
  take_values-all [] (part ∷ parts) c = absurd c
  take_values-all (value ∷ values) [] c = absurd c
  take_values-all (value ∷ values) (part ∷ parts) ((_, back, _, _), c) =
      rw (take_item-append part (all_segments parts), back, take_values-all values parts c) refl

  length-Coded :
      (values : List T) (parts : List Segments)
      → Coded values parts
      → length values ≡ length (lengths_of parts)
  length-Coded [] [] c = refl
  length-Coded [] (part ∷ parts) c = absurd c
  length-Coded (value ∷ values) [] c = absurd c
  length-Coded (value ∷ values) (part ∷ parts) c = ap suc (length-Coded values parts c.1)

  lengths_fit :
      (values : List T) (parts : List Segments)
      → Coded values parts
      → All (λ item. Fits (length item) × All Fits item) (lengths_of parts)
  lengths_fit [] [] c = tt
  lengths_fit [] (part ∷ parts) c = absurd c
  lengths_fit (value ∷ values) [] c = absurd c
  lengths_fit (value ∷ values) (part ∷ parts) ((_, _, few, small), c) =
      ((omega (arith, length-map length part, few), small), lengths_fit values parts c)

  -- The header of a list of values behind a prefix.
  abbrev pub header_of : List ℕ → List T → List Segments → List ℕ
  header_of prefix values parts = prefix ++ (to_le 8 (length values) ++ table (lengths_of parts))

  encode_nested-parts :
      (values : List T) (parts : List Segments) (prefix : List ℕ)
      → Coded values parts
      → length values ≤ max_batch_items
      → encode_nested encode_item decode_item values prefix
        ≡ ok (header_of prefix values parts ∷ all_segments parts)
  unfolding encode_nested
  encode_nested-parts values parts prefix c few =
      let many : ltb max_batch_items (length values) ≡ false = ground (arith, few) in
      rw
        (
          many,
          put-ok (length values) prefix (omega (arith, few)),
          put_values-table values parts (prefix ++ to_le 8 (length values)) [] c,
          append_assoc prefix (to_le 8 (length values)) (table (lengths_of parts)),
        )
        refl

  decode_nested-parts :
      (values : List T) (parts : List Segments) (prefix : List ℕ)
      → Coded values parts
      → length values ≤ max_batch_items
      → length (header_of prefix values parts) < 2 ^ 63
      → decode_nested encode_item decode_item
          (header_of prefix values parts ∷ all_segments parts)
          (length prefix)
        ≡ ok (header_of prefix values parts, values)
  unfolding decode_nested
  decode_nested-parts values parts prefix c few fits =
      let header = header_of prefix values parts in
      let many : ltb max_batch_items (length values) ≡ false = ground (arith, few) in
      let start : At header (length prefix) (to_le 8 (length values) ++ table (lengths_of parts)) =
        record {
          ahead = drop-length_append prefix (to_le 8 (length values) ++ table (lengths_of parts));
          size = sym (length-append prefix (to_le 8 (length values) ++ table (lengths_of parts)));
        } in
      let (e, next) =
        take_number-At header (length prefix) (length values) (table (lengths_of parts)) start
          (omega (arith, few)) (omega (arith, fits)) in
      let whole =
        take_table-At header (length prefix + 8) (lengths_of parts) next
          (lengths_fit values parts c) fits in
      let whole' : take_table (length values) header (length prefix + 8)
          ≡ ok (lengths_of parts, length header) =
        subst (λ n. take_table n header (length prefix + 8) ≡ ok (lengths_of parts, length header))
          (sym (length-Coded values parts c)) whole in
      let some_ : Fits (0 + length (all_segments parts)) =
        omega (arith, next.size, length-table parts, fits) in
      let all : eqb (length header) (length header) ≡ true = ground arith in
      let same : eqb (length (all_segments parts)) (0 + length (all_segments parts)) ≡ true =
        ground arith in
      rw (e, many, whole', all, sum_counts-all 0 parts some_, same, take_values-all values parts c)
        refl

  -- A batch of no more items than the limit, each of which encodes to a part that decodes to it, is
  -- encoded, and what it is encoded to decodes to the batch. Its start, the parts' numbers of segments and
  -- the segments' lengths are below `2 ^ 64`, and the header's length, as any `Vec`'s, below `2 ^ 63`.
  pub decode_batch-encode_batch :
      (a : BatchAction T) (parts : List Segments)
      → Coded a.items parts
      → length a.items ≤ max_batch_items
      → Fits a.start
      → length (header_of (to_le 8 a.start ++ mode_code a.mode ∷ []) a.items parts) < 2 ^ 63
      → (segments : Segments) × (encode_batch encode_item decode_item a ≡ ok segments)
        × (decode_batch encode_item decode_item segments ≡ ok a)
  unfolding encode_batch decode_batch
  decode_batch-encode_batch a parts c few small fits =
      let prefix = to_le 8 a.start ++ mode_code a.mode ∷ [] in
      let header = header_of prefix a.items parts in
      let behind = to_le 8 (length a.items) ++ table (lengths_of parts) in
      let split : header ≡ to_le 8 a.start ++ (mode_code a.mode ∷ behind) =
        append_assoc (to_le 8 a.start) (mode_code a.mode ∷ []) behind in
      let start : At header 0 (to_le 8 a.start ++ (mode_code a.mode ∷ behind)) = record {
        ahead = split;
        size = omega (arith, ap length split);
      } in
      let (e, next) =
        take_number-At header 0 a.start (mode_code a.mode ∷ behind) start small
          (omega (arith, fits)) in
      let width : length prefix ≡ 0 + 8 + 1 =
        omega (
          arith,
          length-append (to_le 8 a.start) (mode_code a.mode ∷ []),
          length-to_le 8 a.start,
        ) in
      let nested = decode_nested-parts a.items parts prefix c few fits in
      let nested' : decode_nested encode_item decode_item (header ∷ all_segments parts) (0 + 8 + 1)
          ≡ ok (header, a.items) =
        subst
          (λ n.
            decode_nested encode_item decode_item (header ∷ all_segments parts) n
            ≡ ok (header, a.items))
          width nested in
      let mode : get_elem? header (0 + 8) ≡ some (mode_code a.mode) =
        get_elem?-drop (0 + 8) header (mode_code a.mode) behind next.ahead in
      (
        header ∷ all_segments parts,
        rw (put-ok a.start [] small, encode_nested-parts a.items parts prefix c few) refl,
        rw (e, mode, mode_from-code a.mode, nested') refl,
      )
