-- ===== src/Emplace/Links.antt =====
-- What `PlaceFile` looks at before it changes anything, and what it may change then.
use repeatr.Base.{
  ℕ, ◌%◌, ◌≡◌, refl, sym, ap, ◌∙◌, Bool, true, false, ◌&&◌, not, Text, List, [], ◌∷◌, ◌++◌, ◌==◌,
  nat_eq, text_eq, ==-refl, Bool-cases, inl, inr,
}
use repeatr.Base.Dict.{Dict}
use repeatr.Base.Paths.{path_join, split_path, has_prefix, slash}
use repeatr.Fs.{
  Header, type_reg, type_link, type_symlink, type_char, type_block, type_dir, type_fifo, file_mode,
}
use repeatr.Emplace.{
  Call, readlink, lstat, stat, copy_body, close_file, mkdir, open_write, mkfifo, chmod, symlink,
  link, mknod, lchown, lsetxattr, utimes_nano, lutimes_nano, not_exist, invalid_argument, enotdir,
  other_errno, Reply, done, link_target, file_info, errno, Panic, breakout, io_error,
  unhandled_mode, Result, value, panicked, Prog, continued, ◌>>=◌, ◌>>◌, pure, panic, ask, must,
  checked,
}
use repeatr.Emplace.Place.{
  not_link, check_links, made_dir, place_dir, closed, copied, copy_into, place_reg, place_link,
  place_type, block_mode, char_mode, device_of, set_xattrs, set_times, place_checked, place_file,
}
use mathlib.Core.List.{append_assoc, append-nil}

-- Which path a call of `PlaceFile` may name: any where it only looks, the joined path where it changes something.
unfoldable pub is_allowed : Text → Header → Text → Call → Bool
is_allowed base hdr path (readlink p) = true
is_allowed base hdr path (lstat p) = true
is_allowed base hdr path (stat p) = true
is_allowed base hdr path (copy_body p) = p == path
is_allowed base hdr path (close_file p) = p == path
is_allowed base hdr path (mkdir p m) = p == path
is_allowed base hdr path (open_write p m) = p == path
is_allowed base hdr path (mkfifo p m) = p == path
is_allowed base hdr path (chmod p m) = p == path && not (hdr.typeflag == type_symlink)
is_allowed base hdr path (symlink t p) = p == path
is_allowed base hdr path (link t p) = p == path && has_prefix t base
is_allowed base hdr path (mknod p m d) = p == path
is_allowed base hdr path (lchown p u g) = p == path
is_allowed base hdr path (lsetxattr p k v) = p == path
is_allowed base hdr path (utimes_nano p a m) = p == path && not (hdr.typeflag == type_symlink)
is_allowed base hdr path (lutimes_nano p a m) = p == path

unfoldable pub AllAllowed : (Call → Bool) → List Call → Type 0
AllAllowed ok [] = Unit
AllAllowed ok (c ∷ cs) = (ok c ≡ true) × AllAllowed ok cs

AllAllowed-append :
    (ok : Call → Bool) (xs ys : List Call)
    → AllAllowed ok xs
    → AllAllowed ok ys
    → AllAllowed ok (xs ++ ys)
unfolding AllAllowed
AllAllowed-append ok [] ys h k = k
AllAllowed-append ok (x ∷ xs) ys (e, h) k = (e, AllAllowed-append ok xs ys h k)

-- Whatever the calls before, a part of the code adds calls that are allowed only.
abbrev pub Adds : {A : Type 0} → (Call → Bool) → Prog A → Type 0
Adds ok m =
    (calls : List Call) → (added : List Call) × ((m calls).1 ≡ calls ++ added) × AllAllowed ok added

module _ {A B : Type 0} (ok : Call → Bool) where
  Adds-continued :
      (f : A → Prog B) → ((a : A) → Adds ok (f a)) → (r : Result A) → Adds ok (continued f r)
  Adds-continued f h (value a) calls = h a calls
  Adds-continued f h (panicked p) calls = ([], sym (append-nil calls), unfold AllAllowed in tt)

  Adds->>= :
      (m : Prog A) (f : A → Prog B) → Adds ok m → ((a : A) → Adds ok (f a)) → Adds ok (m >>= f)
  Adds->>= m f h k calls =
      let (first, e, allowed) = h calls in
      let (second, g, also) = Adds-continued f k (m calls).0 (m calls).1 in
      (
        first ++ second,
        g ∙ ap (λ l. l ++ second) e ∙ append_assoc calls first second,
        AllAllowed-append ok first second allowed also,
      )

module _ (ok : Call → Bool) where
  Adds-panic : (p : Panic) → Adds {A = Unit {0}} ok (panic p)
  Adds-panic p calls = ([], sym (append-nil calls), unfold AllAllowed in tt)

  Adds-pure : (a : Unit {0}) → Adds ok (pure a)
  Adds-pure a calls = ([], sym (append-nil calls), unfold AllAllowed in tt)

module _ (os : List Call → Call → Reply) (ok : Call → Bool) where
  Adds-ask : (c : Call) → ok c ≡ true → Adds ok (ask os c)
  Adds-ask c e calls = (c ∷ [], refl, unfold AllAllowed in (e, tt))

  Adds-checked : (r : Reply) → Adds ok (checked r)
  Adds-checked done = Adds-pure ok tt
  Adds-checked (link_target t) = Adds-pure ok tt
  Adds-checked (file_info d t) = Adds-pure ok tt
  Adds-checked (errno e) = Adds-panic ok (io_error e)

  Adds-must : (c : Call) → ok c ≡ true → Adds ok (must os c)
  Adds-must c e = Adds->>= ok (ask os c) checked (Adds-ask c e) Adds-checked

  Adds->> : (m k : Prog (Unit {0})) → Adds ok m → Adds ok k → Adds ok (m >> k)
  Adds->> m k h g = Adds->>= ok m (λ _. k) h (λ _. g)

  Adds-not_link : (r : Reply) → Adds ok (not_link os r)
  Adds-not_link (errno not_exist) = Adds-pure ok tt
  Adds-not_link (errno invalid_argument) = Adds-pure ok tt
  Adds-not_link (errno enotdir) = Adds-panic ok (io_error enotdir)
  Adds-not_link (errno (other_errno n)) = Adds-panic ok (io_error (other_errno n))
  Adds-not_link done = Adds-panic ok breakout
  Adds-not_link (link_target t) = Adds-panic ok breakout
  Adds-not_link (file_info d t) = Adds-panic ok breakout

  Adds-check_links :
      (above parts : List Text)
      → ((p : Text) → ok (readlink p) ≡ true)
      → Adds ok (check_links os above parts)
  unfolding check_links
  Adds-check_links above [] h = Adds-pure ok tt
  Adds-check_links above (part ∷ parts) h =
      Adds->> (ask os (readlink (path_join above)) >>= not_link os)
        (check_links os (above ++ (part ∷ [])) parts)
        (Adds->>= ok (ask os (readlink (path_join above))) (not_link os)
          (Adds-ask (readlink (path_join above)) (h (path_join above))) Adds-not_link)
        (Adds-check_links (above ++ (part ∷ [])) parts h)

module _ (os : List Call → Call → Reply) (base : Text) (hdr : Header) (path : Text) where
  abbrev ok : Call → Bool
  ok = is_allowed base hdr path

  Adds-own : (c : Call) → ok c ≡ (path == path) → Adds ok (must os c)
  Adds-own c e = Adds-must os ok c (e ∙ ==-refl path)

  Adds-made_dir : (mode : ℕ) (r : Reply) → Adds ok (made_dir os path mode r)
  unfolding is_allowed
  Adds-made_dir mode (file_info true t) = Adds-pure ok tt
  Adds-made_dir mode (file_info false t) = Adds-own (mkdir path mode) refl
  Adds-made_dir mode done = Adds-own (mkdir path mode) refl
  Adds-made_dir mode (link_target t) = Adds-own (mkdir path mode) refl
  Adds-made_dir mode (errno e) = Adds-own (mkdir path mode) refl

  Adds-place_dir : (mode : ℕ) → Adds ok (place_dir os path hdr.name mode)
  unfolding is_allowed
  Adds-place_dir mode = elim (Bool-cases (hdr.name == (46 ∷ slash ∷ []))) [
    | inl a ↦ rw a (
        Adds->>= ok (ask os (lstat path)) (made_dir os path mode) (Adds-ask os ok (lstat path) refl)
          (Adds-made_dir mode))
    | inr a ↦ rw a (Adds-own (mkdir path mode) refl)
  ]

  Adds-closed : Adds ok (closed os path)
  unfolding is_allowed
  Adds-closed =
      Adds->>= ok (ask os (close_file path)) (λ _. pure tt)
        (Adds-ask os ok (close_file path) (==-refl path)) (λ _. Adds-pure ok tt)

  Adds-copied : (r : Reply) → Adds ok (copied os path r)
  unfolding is_allowed
  Adds-copied (errno e) =
      Adds->>= {B = Unit {0}} ok (ask os (close_file path)) (λ _. panic (io_error e))
        (Adds-ask os ok (close_file path) (==-refl path)) (λ _. Adds-panic ok (io_error e))
  Adds-copied done = Adds-closed
  Adds-copied (link_target t) = Adds-closed
  Adds-copied (file_info d t) = Adds-closed

  Adds-place_reg : (mode : ℕ) → Adds ok (place_reg os path mode)
  unfolding is_allowed
  Adds-place_reg mode =
      Adds->> os ok (must os (open_write path mode)) (copy_into os path)
        (Adds-own (open_write path mode) refl)
        (Adds->>= ok (ask os (copy_body path)) (copied os path)
          (Adds-ask os ok (copy_body path) (==-refl path)) Adds-copied)

  Adds-place_link : (target : Text) → Adds ok (place_link os base path target)
  unfolding is_allowed
  Adds-place_link target = elim (Bool-cases (has_prefix target base)) [
    | inl a ↦ rw a (Adds-must os ok (link target path) (rw (==-refl path, a) refl))
    | inr a ↦ rw a (Adds-panic ok breakout)
  ]

  Adds-place_type : Adds ok (place_type os base hdr path)
  unfolding place_type is_allowed
  Adds-place_type = elim (Bool-cases (hdr.typeflag == type_dir)) [
    | inl a0 ↦ rw a0 (Adds-place_dir (file_mode hdr))
    | inr a0 ↦ rw a0 (elim (Bool-cases (hdr.typeflag == type_reg)) [
      | inl a1 ↦ rw a1 (Adds-place_reg (file_mode hdr))
      | inr a1 ↦ rw a1 (elim (Bool-cases (hdr.typeflag == type_symlink)) [
        | inl a2 ↦ rw a2 (Adds-own (symlink hdr.linkname path) refl)
        | inr a2 ↦ rw a2 (elim (Bool-cases (hdr.typeflag == type_link)) [
          | inl a3 ↦ rw a3 (Adds-place_link (path_join (base ∷ hdr.linkname ∷ [])))
          | inr a3 ↦ rw a3 (elim (Bool-cases (hdr.typeflag == type_block)) [
            | inl a4 ↦ rw a4 (Adds-own (mknod path (block_mode hdr) (device_of hdr)) refl)
            | inr a4 ↦ rw a4 (elim (Bool-cases (hdr.typeflag == type_char)) [
              | inl a5 ↦ rw a5 (Adds-own (mknod path (char_mode hdr) (device_of hdr)) refl)
              | inr a5 ↦ rw a5 (elim (Bool-cases (hdr.typeflag == type_fifo)) [
                | inl a6 ↦ rw a6 (Adds-own (mkfifo path (hdr.mode % 4096)) refl)
                | inr a6 ↦ rw a6 (Adds-panic ok unhandled_mode)
              ])
            ])
          ])
        ])
      ])
    ])
  ]

  Adds-set_xattrs : (xattrs : Dict Text Text) → Adds ok (set_xattrs os path xattrs)
  unfolding set_xattrs is_allowed
  Adds-set_xattrs [] = Adds-pure ok tt
  Adds-set_xattrs ((key, v) ∷ rest) =
      Adds->> os ok (must os (lsetxattr path key v)) (set_xattrs os path rest)
        (Adds-own (lsetxattr path key v) refl) (Adds-set_xattrs rest)

  Adds-set_times : Adds ok (set_times os hdr path)
  unfolding set_times is_allowed
  Adds-set_times = elim (Bool-cases (hdr.typeflag == type_symlink)) [
    | inl a ↦ rw a (Adds-own (lutimes_nano path hdr.access_time hdr.mod_time) refl)
    | inr a ↦ rw a (
        Adds->> os ok (must os (chmod path (file_mode hdr)))
          (must os (utimes_nano path hdr.access_time hdr.mod_time))
          (Adds-must os ok (chmod path (file_mode hdr)) (rw (==-refl path, a) refl))
          (Adds-must os ok (utimes_nano path hdr.access_time hdr.mod_time)
            (rw (==-refl path, a) refl)))
  ]

  Adds-place_checked : Adds ok (place_checked os base hdr path)
  unfolding place_checked is_allowed
  Adds-place_checked =
      Adds->> os ok
        (place_type os base hdr path
          >> must os (lchown path hdr.uid hdr.gid)
          >> set_xattrs os path hdr.xattrs)
        (set_times os hdr path)
        (Adds->> os ok (place_type os base hdr path >> must os (lchown path hdr.uid hdr.gid))
          (set_xattrs os path hdr.xattrs)
          (Adds->> os ok (place_type os base hdr path) (must os (lchown path hdr.uid hdr.gid))
            Adds-place_type (Adds-own (lchown path hdr.uid hdr.gid) refl))
          (Adds-set_xattrs hdr.xattrs))
        Adds-set_times

-- Whatever the system answers, each call that `PlaceFile` makes either looks only or names the joined path: a hard link with a target
-- whose text begins with the base path, and the calls that set the mode and the times of what a symlink there points
-- at only for a header that is no symlink's. It does not say what stands at that path, nor that it is below the base.
pub place_file-AllAllowed :
    (os : List Call → Call → Reply) (base : Text) (hdr : Header) (calls : List Call)
    → (added : List Call) × ((place_file os base hdr calls).1 ≡ calls ++ added)
      × AllAllowed (is_allowed base hdr (path_join (base ∷ hdr.name ∷ []))) added
unfolding place_file is_allowed
place_file-AllAllowed os base hdr =
    let path : Text = path_join (base ∷ hdr.name ∷ []) in
    Adds->> os (is_allowed base hdr path) (check_links os (base ∷ []) (split_path hdr.name))
      (place_checked os base hdr path)
      (Adds-check_links os (is_allowed base hdr path) (base ∷ []) (split_path hdr.name) (λ p. refl))
      (Adds-place_checked os base hdr path)
