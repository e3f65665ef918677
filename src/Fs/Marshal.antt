-- ===== src/Fs/Marshal.antt =====
-- The encoding of metadata: one complete value, and independent of the order of a map.
use repeatr.Base.{
  ℕ, zero, suc, ◌+◌, ◌*◌, ◌≡◌, refl, ap, ◌∙◌, Bool, true, false, List, [], ◌∷◌, ◌++◌, Text, length,
  str, Bool-cases, inl, inr, arith, if◌then◌else◌,
}
use repeatr.Base.Dict.{Dict}
use repeatr.Base.Sort.{sort_by, sort_by_perm, length-sort_by, length-perm, IsKeyed}
use mathlib.Core.List.Permᴰ.{Permᴰ}
use mathlib.Core.List.{append_assoc}
use repeatr.Fs.{
  Header, Item, map_start, text_item, bytes_item, int_item, array_start, array_break, is_device,
  has_linkname, has_xattrs, field_count, marshal_common, marshal_linkname, marshal_device,
  marshal_pairs, marshal_xattrs, marshal,
}

-- A reader of items that knows only how many values are still due: in the present map, and in the
-- ones round each open array. The values of an array end at its break.
unfoldable pub is_complete : ℕ → List ℕ → List Item → Bool
is_complete zero [] [] = true
is_complete zero (m ∷ outer) [] = false
is_complete (suc n) outer [] = false
is_complete zero [] (x ∷ xs) = false
is_complete zero (m ∷ outer) (map_start k ∷ xs) = is_complete (2 * k) (m ∷ outer) xs
is_complete zero (m ∷ outer) (text_item s ∷ xs) = is_complete zero (m ∷ outer) xs
is_complete zero (m ∷ outer) (bytes_item s ∷ xs) = is_complete zero (m ∷ outer) xs
is_complete zero (m ∷ outer) (int_item i ∷ xs) = is_complete zero (m ∷ outer) xs
is_complete zero (m ∷ outer) (array_start ∷ xs) = is_complete zero (zero ∷ m ∷ outer) xs
is_complete zero (m ∷ outer) (array_break ∷ xs) = is_complete m outer xs
is_complete (suc n) outer (map_start k ∷ xs) = is_complete (2 * k + n) outer xs
is_complete (suc n) outer (text_item s ∷ xs) = is_complete n outer xs
is_complete (suc n) outer (bytes_item s ∷ xs) = is_complete n outer xs
is_complete (suc n) outer (int_item i ∷ xs) = is_complete n outer xs
is_complete (suc n) outer (array_start ∷ xs) = is_complete zero (n ∷ outer) xs
is_complete (suc n) outer (array_break ∷ xs) = false

-- `k` more values than `n`.
abbrev pub more : ℕ → ℕ → ℕ
more zero n = n
more (suc k) n = suc (more k n)

more_lem : (k n : ℕ) → more k n ≡ k + n
more_lem zero n = omega arith
more_lem (suc k) n = omega (arith, more_lem k n)

module _ (n : ℕ) (outer : List ℕ) (ys : List Item) where
  complete-common :
      (m : Header) → is_complete (more 14 n) outer (marshal_common m ++ ys) ≡ is_complete n outer ys
  unfolding is_complete marshal_common
  complete-common m = refl

  complete-linkname :
      (m : Header)
      → is_complete (more (if has_linkname m then 2 else 0) n) outer (marshal_linkname m ++ ys)
        ≡ is_complete n outer ys
  unfolding is_complete marshal_linkname
  complete-linkname m = elim (Bool-cases (has_linkname m)) [ inl a ↦ rw a refl | inr a ↦ rw a refl ]

  complete-device :
      (m : Header)
      → is_complete (more (if is_device m then 4 else 0) n) outer (marshal_device m ++ ys)
        ≡ is_complete n outer ys
  unfolding is_complete marshal_device
  complete-device m = elim (Bool-cases (is_device m)) [ inl a ↦ rw a refl | inr a ↦ rw a refl ]

  pair_complete :
      (k v : Text) (d : Dict Text Text)
      → is_complete (2 * length d + n) outer (marshal_pairs d ++ ys) ≡ is_complete n outer ys
      → is_complete (2 * suc (length d) + n) outer (marshal_pairs ((k, v) ∷ d) ++ ys)
        ≡ is_complete n outer ys
  unfolding marshal_pairs is_complete
  pair_complete k v d h =
      let e : 2 * suc (length d) + n ≡ suc (suc (2 * length d + n)) = omega arith in rw e h

  complete-pairs :
      (d : Dict Text Text)
      → is_complete (2 * length d + n) outer (marshal_pairs d ++ ys) ≡ is_complete n outer ys
  unfolding marshal_pairs
  complete-pairs [] = ap (λ k. is_complete k outer ys) (omega arith)
  complete-pairs ((k, v) ∷ d) = pair_complete k v d (complete-pairs d)

  complete-map :
      (d : Dict Text Text)
      → is_complete (suc n) outer (map_start (length d) ∷ (marshal_pairs d ++ ys))
        ≡ is_complete n outer ys
  unfolding is_complete
  complete-map d = complete-pairs d

  text_complete :
      (t : Text) (xs : List Item)
      → is_complete (suc n) outer xs ≡ is_complete n outer ys
      → is_complete (suc (suc n)) outer (text_item t ∷ xs) ≡ is_complete n outer ys
  unfolding is_complete
  text_complete t xs e = e

  complete-xattrs :
      (m : Header)
      → is_complete (more (if has_xattrs m then 2 else 0) n) outer (marshal_xattrs m ++ ys)
        ≡ is_complete n outer ys
  unfolding marshal_xattrs
  complete-xattrs m = elim (Bool-cases (has_xattrs m)) [
    | inl a ↦
        rw (a, ← length-sort_by (λ line. line.0) m.xattrs)
          (text_complete (str "x") _ (complete-map (sort_by (λ line. line.0) m.xattrs)))
    | inr a ↦ rw a refl
  ]

  counted :
      (k : ℕ) (xs : List Item)
      → is_complete (suc n) outer (map_start k ∷ xs) ≡ is_complete (2 * k + n) outer xs
  unfolding is_complete
  counted k xs = refl

-- The fields announced are the fields written.
field_count_lem :
    (m : Header) (n : ℕ)
    → 2 * field_count m + n
      ≡ more 14 (
          more
            (if has_linkname m then 2 else 0)
            (more (if is_device m then 4 else 0) (more (if has_xattrs m then 2 else 0) n)))
field_count_lem m n = elim (Bool-cases (has_linkname m)) [
  | inl a ↦ elim (Bool-cases (is_device m)) [
    | inl b ↦ elim (Bool-cases (has_xattrs m)) [
      | inl c ↦ rw (a, b, c) (omega arith)
      | inr c ↦ rw (a, b, c) (omega arith)
    ]
    | inr b ↦ elim (Bool-cases (has_xattrs m)) [
      | inl c ↦ rw (a, b, c) (omega arith)
      | inr c ↦ rw (a, b, c) (omega arith)
    ]
  ]
  | inr a ↦ elim (Bool-cases (is_device m)) [
    | inl b ↦ elim (Bool-cases (has_xattrs m)) [
      | inl c ↦ rw (a, b, c) (omega arith)
      | inr c ↦ rw (a, b, c) (omega arith)
    ]
    | inr b ↦ elim (Bool-cases (has_xattrs m)) [
      | inl c ↦ rw (a, b, c) (omega arith)
      | inr c ↦ rw (a, b, c) (omega arith)
    ]
  ]
]

-- To a reader that has more values to come after it, the metadata is exactly one value.
pub complete-marshal :
    (n : ℕ) (outer : List ℕ) (ys : List Item) (m : Header)
    → is_complete (suc n) outer (marshal m ++ ys) ≡ is_complete n outer ys
unfolding marshal
complete-marshal n outer ys m =
    let fields : List Item =
      marshal_common m ++ marshal_linkname m ++ marshal_device m ++ marshal_xattrs m in
    let split : fields ++ ys
        ≡ marshal_common m
          ++ (marshal_linkname m ++ (marshal_device m ++ (marshal_xattrs m ++ ys))) =
      rw (append_assoc, append_assoc, append_assoc) refl in
    counted n outer ys (field_count m) (fields ++ ys)
    ∙ rw (split, field_count_lem m n)
        (complete-common _ outer _ m
          ∙ complete-linkname _ outer _ m
          ∙ complete-device _ outer _ m
          ∙ complete-xattrs n outer ys m)

-- The encoding does not depend on the order in which the extended attributes are ranged over, when no two have one key.
pub marshal_perm :
    (m : Header) (xattrs : Dict Text Text)
    → Permᴰ m.xattrs xattrs
    → IsKeyed (λ line. line.0) m.xattrs
    → marshal (record m { xattrs = xattrs }) ≡ marshal m
unfolding marshal marshal_xattrs marshal_common marshal_device marshal_linkname
marshal_perm m xattrs p k =
    let e : length m.xattrs ≡ length xattrs = length-perm m.xattrs xattrs p in
    rw (← e, ← sort_by_perm (λ line. line.0) m.xattrs xattrs p k) refl
