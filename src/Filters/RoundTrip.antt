-- ===== src/Filters/RoundTrip.antt =====
-- Reading back the lines that filters are written as.
use mathlib.Core.Path.{fun_ext}
use repeatr.Base.{
  ℕ, ℤ, pos, Bool, true, false, Option, none, some, List, [], ◌∷◌, ◌++◌, Text, str, text_eq, nat_eq,
  ◌==◌, ltb, ◌&&◌, not, ◌≡◌, refl, sym, ap, ◌∙◌, arith, Bool-cases, inl, inr, eq-of-==,
}
use repeatr.Formula.{
  Filters, FilterMode, filter_uninitialized, filter_use, filter_keep, filter_host, Time,
}
use repeatr.Filters.{
  unix, zero_filters, line_of, and_then, bind, as_string_slice, apply_words, from_string_slice,
}

abbrev pub graphic : Text → Bool
graphic [] = true
graphic (c ∷ cs) = ltb 32 c && ltb c 127 && graphic cs

-- A text that is not empty, of visible ASCII characters.
abbrev pub is_word : Text → Bool
is_word w = not (w == []) && graphic w

-- The value if the mode uses it, and else the default.
abbrev pub used {ℓ} : {A : Type ℓ} → FilterMode → A → A → A
used filter_uninitialized a d = d
used filter_use a d = a
used filter_keep a d = d
used filter_host a d = d

-- Zero filters but for the modes and the values in use, with a time in whole seconds.
abbrev pub normal : Filters → Filters
normal f = record {
  uid_mode = f.uid_mode;
  uid = used f.uid_mode f.uid zero_filters.uid;
  gid_mode = f.gid_mode;
  gid = used f.gid_mode f.gid zero_filters.gid;
  mtime_mode = f.mtime_mode;
  mtime = used f.mtime_mode (unix f.mtime.seconds) zero_filters.mtime;
}

parts :
    (x y z : Option (List Text)) (lines : List Text)
    → and_then x (and_then y z) ≡ some lines
    → (xs ys zs : List Text) × (x ≡ some xs)
      × (y ≡ some ys)
      × (z ≡ some zs)
      × (xs ++ (ys ++ zs) ≡ lines)
parts none y z lines e = ground arith
parts (some xs) none z lines e = ground arith
parts (some xs) (some ys) none lines e = ground arith
parts (some xs) (some ys) (some zs) lines e = (xs, ys, zs, refl, refl, refl, ground arith)

module _ (itoa : ℤ → Text) (atoi : Text → Option ℤ) (fields : Text → List Text)
    (parse_date : List Text → Option Time) (atoi-itoa : (n : ℤ) → atoi (itoa n) ≡ some n)
    (atoi-keep : atoi (str "keep") ≡ none) (itoa-is_word : (n : ℤ) → is_word (itoa n) ≡ true)
    (fields_two : (a b : Text)
      → is_word a ≡ true
      → is_word b ≡ true
      → fields (a ++ (32 ∷ b)) ≡ a ∷ b ∷ []) where
  abbrev from : List Text → Filters → Option Filters
  from = from_string_slice itoa atoi fields parse_date

  bind_assoc :
      (x : Option Filters) (k h : Filters → Option Filters)
      → bind (bind x k) h ≡ bind x (λ f. bind (k f) h)
  bind_assoc none k h = refl
  bind_assoc (some f) k h = refl

  bind-some : (x : Option Filters) → bind x (λ f. some f) ≡ x
  bind-some none = refl
  bind-some (some f) = refl

  from-append : (xs ys : List Text) (f : Filters) → from (xs ++ ys) f ≡ bind (from xs f) (from ys)
  unfolding from_string_slice
  from-append [] ys f = refl
  from-append (x ∷ xs) ys f =
      ap (bind (words x f)) (fun_ext (λ g. from-append xs ys g))
      ∙ sym (bind_assoc (words x f) (from xs) (from ys))
    where
      words : Text → Filters → Option Filters
      words x f = apply_words itoa atoi fields parse_date f (fields x)

  -- A line of two words.
  from_line :
      (name value : Text) (f : Filters)
      → is_word name ≡ true
      → is_word value ≡ true
      → from ((name ++ (32 ∷ value)) ∷ []) f
        ≡ apply_words itoa atoi fields parse_date f (name ∷ value ∷ [])
  unfolding from_string_slice
  from_line name value f h k = rw (fields_two name value h k) (bind-some _)

  itoa≢keep : (n : ℤ) → (itoa n == str "keep") ≡ false
  itoa≢keep n = elim (Bool-cases (itoa n == str "keep")) [
    | inl same ↦
        let e : atoi (itoa n) ≡ atoi (str "keep") = ap atoi (eq-of-== (itoa n) (str "keep") same) in
        ground (arith, e, atoi-itoa n, atoi-keep)
    | inr other ↦ other
  ]

  -- The filters with the owner read, and with the group.
  abbrev owned : FilterMode → ℕ → Filters
  owned m n = record zero_filters { uid_mode = m; uid = used m (pos n) (pos 0) }

  abbrev grouped : FilterMode → ℕ → Filters → Filters
  grouped m n f = record f { gid_mode = m; gid = used m (pos n) (pos 0) }

  uid_read :
      (m : FilterMode) (n : ℕ) (lines : List Text)
      → line_of m (str "uid") (itoa (pos n)) ≡ some lines
      → from lines zero_filters ≡ some (owned m n)
  unfolding from_string_slice apply_words text_eq
  uid_read filter_uninitialized n lines e = let q : [] ≡ lines = ground arith in rw (← q) refl
  uid_read filter_use n lines e =
      let q : (str "uid" ++ (32 ∷ itoa (pos n))) ∷ [] ≡ lines = ground arith in
      rw (← q) (
        from_line (str "uid") (itoa (pos n)) zero_filters refl (itoa-is_word (pos n))
        ∙ rw (itoa≢keep (pos n), atoi-itoa (pos n)) refl)
  uid_read filter_keep n lines e =
      let q : (str "uid" ++ (32 ∷ str "keep")) ∷ [] ≡ lines = ground arith in
      rw (← q) (from_line (str "uid") (str "keep") zero_filters refl refl)
  uid_read filter_host n lines e = ground arith

  gid_read :
      (u m : FilterMode) (k n : ℕ) (lines : List Text)
      → line_of m (str "gid") (itoa (pos n)) ≡ some lines
      → from lines (owned u k) ≡ some (grouped m n (owned u k))
  unfolding from_string_slice apply_words text_eq
  gid_read u filter_uninitialized k n lines e = let q : [] ≡ lines = ground arith in rw (← q) refl
  gid_read u filter_use k n lines e =
      let q : (str "gid" ++ (32 ∷ itoa (pos n))) ∷ [] ≡ lines = ground arith in
      rw (← q) (
        from_line (str "gid") (itoa (pos n)) (owned u k) refl (itoa-is_word (pos n))
        ∙ rw (itoa≢keep (pos n), atoi-itoa (pos n)) refl)
  gid_read u filter_keep k n lines e =
      let q : (str "gid" ++ (32 ∷ str "keep")) ∷ [] ≡ lines = ground arith in
      rw (← q) (from_line (str "gid") (str "keep") (owned u k) refl refl)
  gid_read u filter_host k n lines e = ground arith

  mtime_read :
      (m : FilterMode) (t : ℤ) (f : Filters) (lines : List Text)
      → f.mtime_mode ≡ filter_uninitialized
      → f.mtime ≡ zero_filters.mtime
      → line_of m (str "mtime") (64 ∷ itoa t) ≡ some lines
      → from lines f
        ≡ some (record f { mtime_mode = m; mtime = used m (unix t) zero_filters.mtime })
  unfolding from_string_slice apply_words text_eq nat_eq
  mtime_read filter_uninitialized t f lines unset zero e =
      let q : [] ≡ lines = ground arith in rw (← q) (rw (← unset, ← zero) refl)
  mtime_read filter_use t f lines unset zero e =
      let q : (str "mtime" ++ (32 ∷ 64 ∷ itoa t)) ∷ [] ≡ lines = ground arith in
      rw (← q) (
        from_line (str "mtime") (64 ∷ itoa t) f refl (ground (arith, itoa-is_word t))
        ∙ rw (atoi-itoa t) refl)
  mtime_read filter_keep t f lines unset zero e =
      let q : (str "mtime" ++ (32 ∷ str "keep")) ∷ [] ≡ lines = ground arith in
      rw (← q) (from_line (str "mtime") (str "keep") f refl refl ∙ rw zero refl)
  mtime_read filter_host t f lines unset zero e = ground arith

  -- Filters with an owner and a group that are not negative, when they can be written, are read
  -- back from their lines into zero filters as they were, but for what no mode uses and for the
  -- fraction of the second.
  pub from_string_slice-as_string_slice :
      (f : Filters) (u g : ℕ) (lines : List Text)
      → f.uid ≡ pos u
      → f.gid ≡ pos g
      → as_string_slice itoa atoi fields parse_date f ≡ some lines
      → from lines zero_filters ≡ some (normal f)
  unfolding as_string_slice
  from_string_slice-as_string_slice f u g lines uid gid e =
      let (xs, ys, zs, uids, gids, times, all) = parts _ _ _ lines e in
      let uids' : line_of f.uid_mode (str "uid") (itoa (pos u)) ≡ some xs =
        ap (λ n. line_of f.uid_mode (str "uid") (itoa n)) (sym uid) ∙ uids in
      let gids' : line_of f.gid_mode (str "gid") (itoa (pos g)) ≡ some ys =
        ap (λ n. line_of f.gid_mode (str "gid") (itoa n)) (sym gid) ∙ gids in
      rw (← all) (
        from-append xs (ys ++ zs) zero_filters
        ∙ rw (uid_read f.uid_mode u xs uids') (
            from-append ys zs (owned f.uid_mode u)
            ∙ rw (gid_read f.uid_mode f.gid_mode u g ys gids') (
                mtime_read f.mtime_mode f.mtime.seconds (grouped f.gid_mode g (owned f.uid_mode u))
                  zs refl refl times
                ∙ rw (uid, gid) refl)))
