-- ===== src/Emplace/Fuel.antt =====
-- `mkdirAll` ends: each path is longer than its parent.
use repeatr.Base.{
  ℕ, zero, suc, ◌-◌, ◌≤◌, ◌<◌, ◌≡◌, refl, sym, ap, ◌∙◌, true, false, Text, Option, none, some, List,
  [], ◌∷◌, ◌++◌, ◌==◌, nat_eq, text_eq, length, drop, length-reverse, length-drop, Bool-cases, inl,
  inr, arith, ltb,
}
use repeatr.Base.Paths.{dot}
use repeatr.Fs.{Header, epochwhen}
use repeatr.Formula.{Time}
use repeatr.Emplace.{
  Call, lstat, stat, mkdir, lutimes_nano, Errno, Reply, done, link_target, file_info, errno, Result,
  value, Prog, continued, ◌>>=◌, pure, ask,
}
use repeatr.Emplace.Mkdir.{
  Made, skip_separators, skip_element, before_element, parent_of, chmodded, standardize_mode,
  chowned, standardize, existing, pushed, created, make_in, with_parent, make_parent, slow_path,
  stated, mkdir_all, timed, set_all_times, dir_name, repair_top, finish_stack, finish_error,
  some_of, finish_made, mkdir_all_with_attribs,
}
use mathlib.Core.Option.{some-injective, none-ne-some}
use mathlib.Core.List.{reverse}

-- Whatever the calls before, there is a result, and no panic.
abbrev pub Ends : {A : Type 0} → Prog (Option A) → Type 0
Ends {A} m = (calls : List Call) → (a : A) × ((m calls).0 ≡ value (some a))

module _ {A B : Type 0} where
  Ends-continued :
      (f : Option A → Prog (Option B))
      → ((a : A) → Ends (f (some a)))
      → (r : Result (Option A)) (calls : List Call) → ((a : A) × (r ≡ value (some a)))
      → (b : B) × ((continued f r calls).0 ≡ value (some b))
  Ends-continued f h r calls (a, e) = rw e (h a calls)

  Ends->>= :
      (m : Prog (Option A)) (f : Option A → Prog (Option B))
      → Ends m
      → ((a : A) → Ends (f (some a)))
      → Ends (m >>= f)
  Ends->>= m f e h calls = Ends-continued f h (m calls).0 (m calls).1 (e calls)

skip_separators_le : (p : Text) → length (skip_separators p) ≤ length p
skip_separators_le [] = omega arith
skip_separators_le (c ∷ p) = ground (arith, skip_separators_le p)

skip_element_le : (p : Text) → length (skip_element p) ≤ length p
skip_element_le [] = omega arith
skip_element_le (c ∷ p) = ground (arith, skip_element_le p)

before_element_le : (path : Text) → length (before_element path) ≤ length path
before_element_le path = omega (
  arith,
  length-reverse path,
  skip_separators_le (reverse path),
  skip_element_le (skip_separators (reverse path)),
)

-- A parent is shorter than the path.
parent_of_lt : (path parent : Text) → parent_of path ≡ some parent → length parent < length path
parent_of_lt path parent e = elim (Bool-cases (ltb 1 (length (before_element path)))) [
  | inl a ↦
      let found : reverse (drop 1 (before_element path)) ≡ parent =
        some-injective _ parent (sym (rw a refl) ∙ e) in
      let same : length parent ≡ length (before_element path) - 1 =
        ap length (sym found)
        ∙ length-reverse (drop 1 (before_element path))
        ∙ length-drop 1 (before_element path) in
      ground (arith, same, before_element_le path, a)
  | inr a ↦ absurd (none-ne-some parent (sym (rw a refl) ∙ e))
]

module _ {A : Type 0} (os : List Call → Call → Reply) where
  Ends-ask :
      (c : Call) (f : Reply → Prog (Option A)) → ((r : Reply) → Ends (f r)) → Ends (ask os c >>= f)
  Ends-ask c f h calls = h (os calls c) (calls ++ (c ∷ []))

module _ (os : List Call → Call → Reply) (hdr : Header) where
  Ends-chmodded : (m : Made) (r : Reply) → Ends (chmodded os hdr m r)
  Ends-chmodded m (errno e) calls = (_, refl)
  Ends-chmodded m done calls = (_, refl)
  Ends-chmodded m (link_target t) calls = (_, refl)
  Ends-chmodded m (file_info d t) calls = (_, refl)

  Ends-standardize_mode : (path : Text) (m : Made) → Ends (standardize_mode os hdr path m)
  Ends-standardize_mode path m = Ends-ask os _ (chmodded os hdr m) (Ends-chmodded m)

  Ends-chowned : (path : Text) (m : Made) (r : Reply) → Ends (chowned os hdr path m r)
  Ends-chowned path m (errno e) calls = (_, refl)
  Ends-chowned path m done calls = Ends-standardize_mode path m calls
  Ends-chowned path m (link_target t) calls = Ends-standardize_mode path m calls
  Ends-chowned path m (file_info d t) calls = Ends-standardize_mode path m calls

  Ends-existing : (m : Made) (e : Errno) (r : Reply) → Ends (existing os hdr m e r)
  Ends-existing m e (file_info true t) calls = (_, refl)
  Ends-existing m e (file_info false t) calls = (_, refl)
  Ends-existing m e done calls = (_, refl)
  Ends-existing m e (link_target t) calls = (_, refl)
  Ends-existing m e (errno f) calls = (_, refl)

  Ends-standardize : (path : Text) (m : Made) → Ends (standardize os hdr path m)
  Ends-standardize path m = Ends-ask os _ (chowned os hdr path m) (Ends-chowned path m)

  Ends-created : (path : Text) (m : Made) (r : Reply) → Ends (created os hdr path m r)
  Ends-created path m (errno e) calls =
      Ends-ask os (lstat path) (existing os hdr m e) (Ends-existing m e) calls
  Ends-created path m done calls = Ends-standardize path (pushed os hdr path m) calls
  Ends-created path m (link_target t) calls = Ends-standardize path (pushed os hdr path m) calls
  Ends-created path m (file_info d t) calls = Ends-standardize path (pushed os hdr path m) calls

  Ends-make_in : (path : Text) (err : Option Errno) (m : Made) → Ends (make_in os hdr path err m)
  Ends-make_in path (some e) m calls = (_, refl)
  Ends-make_in path none m calls =
      Ends-ask os (mkdir path 493) (created os hdr path m) (Ends-created path m) calls

  Ends-make_parent :
      (above : Text → Prog (Option Made)) (parent : Option Text)
      → ((p : Text) → parent ≡ some p → Ends (above p))
      → Ends (make_parent os hdr above parent)
  Ends-make_parent above none h calls = (_, refl)
  Ends-make_parent above (some p) h calls = h p refl calls

  Ends-slow_path :
      (above : Text → Prog (Option Made)) (path : Text)
      → ((p : Text) → parent_of path ≡ some p → Ends (above p))
      → Ends (slow_path os hdr above path)
  Ends-slow_path above path h =
      Ends->>= (make_parent os hdr above (parent_of path)) (with_parent os hdr path)
        (Ends-make_parent above (parent_of path) h) (λ m. Ends-make_in path m.err m)

  Ends-stated :
      (above : Text → Prog (Option Made)) (path : Text) (r : Reply)
      → Ends (slow_path os hdr above path)
      → Ends (stated os hdr above path r)
  Ends-stated above path (file_info true t) h calls = (_, refl)
  Ends-stated above path (file_info false t) h calls = (_, refl)
  Ends-stated above path done h calls = h calls
  Ends-stated above path (link_target t) h calls = h calls
  Ends-stated above path (errno e) h calls = h calls

  -- Whatever the system answers, `mkdirAll` of a path shorter than the fuel returns a result.
  pub mkdir_all-Ends : (n : ℕ) (path : Text) → length path < n → Ends (mkdir_all os hdr n path)
  unfolding mkdir_all
  mkdir_all-Ends zero path l = absurd (omega arith)
  mkdir_all-Ends (suc n) path l =
      Ends-ask os (stat path) (stated os hdr (mkdir_all os hdr n) path) (λ r.
        Ends-stated (mkdir_all os hdr n) path r (
          Ends-slow_path (mkdir_all os hdr n) path
            (λ p e. mkdir_all-Ends n p (omega (arith, l, parent_of_lt path p e)))))

  -- No panic.
  abbrev Returns : Prog (Option Errno) → Type 0
  Returns m = (calls : List Call) → (e : Option Errno) × ((m calls).0 ≡ value e)

  Returns-timed :
      (rest : Prog (Option Errno)) (r : Reply) → Returns rest → Returns (timed os hdr rest r)
  Returns-timed rest (errno e) h calls = (_, refl)
  Returns-timed rest done h calls = h calls
  Returns-timed rest (link_target t) h calls = h calls
  Returns-timed rest (file_info d t) h calls = h calls

  Returns-set_all_times :
      (paths : List Text) (rest : Prog (Option Errno))
      → Returns rest
      → Returns (set_all_times os hdr paths rest)
  unfolding set_all_times
  Returns-set_all_times [] rest h = h
  Returns-set_all_times (path ∷ paths) rest h = λ calls.
      Returns-timed (set_all_times os hdr paths rest)
        (os calls (lutimes_nano path hdr.access_time hdr.mod_time))
        (Returns-set_all_times paths rest h)
        (calls ++ (lutimes_nano path hdr.access_time hdr.mod_time ∷ []))

  Returns-repair_top : (top : Text) (mtime : Time) → Returns (repair_top os hdr top mtime)
  Returns-repair_top top mtime calls = elim (Bool-cases (top == dot)) [
    | inl a ↦ rw a (none, refl)
    | inr a ↦ rw a (
        Returns-timed (pure none) (os calls (lutimes_nano top epochwhen mtime))
          (λ later. (none, refl)) (calls ++ (lutimes_nano top epochwhen mtime ∷ [])))
  ]

  Returns-finish_stack :
      (stack : List Text) (mtime : Time) → Returns (finish_stack os hdr stack mtime)
  Returns-finish_stack [] mtime calls = (none, refl)
  Returns-finish_stack (first ∷ stack) mtime calls =
      Returns-set_all_times (reverse (first ∷ stack)) (repair_top os hdr (dir_name first) mtime)
        (Returns-repair_top (dir_name first) mtime) calls

  Returns-finish_error : (e : Option Errno) (m : Made) → Returns (finish_error os hdr e m)
  Returns-finish_error (some e) m calls = (some e, refl)
  Returns-finish_error none m calls = Returns-finish_stack m.stack m.top_mtime calls

  Ends-some_of : (m : Prog (Option Errno)) → Returns m → Ends (some_of os hdr m)
  Ends-some_of m h calls = of (m calls).0 (m calls).1 (h calls)
    where
      of :
          (r : Result (Option Errno)) (later : List Call)
          → ((e : Option Errno) × (r ≡ value e))
          → (e : Option Errno) × ((continued (λ x. pure (some x)) r later).0 ≡ value (some e))
      of r later (e, q) = (e, rw q refl)

  -- Whatever the system answers, `MkdirAllWithAttribs` of any path returns nil or an error: the fuel is enough, and it does not panic.
  pub mkdir_all_with_attribs-Ends :
      (path : Text) (calls : List Call)
      → (e : Option Errno) × ((mkdir_all_with_attribs os hdr path calls).0 ≡ value (some e))
  unfolding mkdir_all_with_attribs
  mkdir_all_with_attribs-Ends path =
      Ends->>= (mkdir_all os hdr (suc (length path)) path) (finish_made os hdr)
        (mkdir_all-Ends (suc (length path)) path (omega arith))
        (λ m. Ends-some_of (finish_error os hdr m.err m) (Returns-finish_error m.err m))
