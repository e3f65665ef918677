-- ===== src/Emplace/Breakout.antt =====
-- `PlaceFile` does not go through symlinks: what it asks first, and what it does with the answers.
use repeatr.Base.{◌≡◌, refl, ap, ◌∙◌, Bool, true, false, Text, List, [], ◌∷◌, ◌++◌, ◌⊎◌, inl, inr}
use repeatr.Base.Paths.{path_join, split_path}
use repeatr.Fs.{Header}
use repeatr.Emplace.{
  Call, readlink, not_exist, invalid_argument, enotdir, other_errno, Reply, done, link_target,
  file_info, errno, Panic, breakout, io_error, Result, value, panicked, continued,
}
use repeatr.Emplace.Place.{not_link, check_links, place_checked, place_file}
use repeatr.Emplace.Links.{AllAllowed}
use mathlib.Core.List.{append_assoc, append-nil}

-- `Readlink` of the base and of each part of the name but the last.
unfoldable pub looks : List Text → List Text → List Call
looks above [] = []
looks above (part ∷ parts) = readlink (path_join above) ∷ looks (above ++ (part ∷ [])) parts

abbrev pub IsNoLink : Reply → Type 0
IsNoLink r = (r ≡ errno not_exist) ⊎ (r ≡ errno invalid_argument)

module _ (os : List Call → Call → Reply) where
  -- Each of the calls, made in this order, found no link.
  unfoldable pub IsClear : List Call → List Call → Type 0
  IsClear calls [] = Unit
  IsClear calls (c ∷ cs) = IsNoLink (os calls c) × IsClear (calls ++ (c ∷ [])) cs

  abbrev pub is_readlink : Call → Bool
  is_readlink (readlink p) = true
  is_readlink c = false

  -- A panic after looking only.
  abbrev pub Refused : (Result (Unit {0}) × List Call) → List Call → Type 0
  Refused outcome calls =
      (p : Panic) × (added : List Call) × (outcome ≡ (panicked p, calls ++ added))
      × AllAllowed is_readlink added

  not_link-cases :
      (r : Reply) (calls : List Call)
      → (IsNoLink r × (not_link os r calls ≡ (value tt, calls)))
        ⊎ ((p : Panic) × (not_link os r calls ≡ (panicked p, calls)))
  not_link-cases (errno not_exist) calls = inl (inl refl, refl)
  not_link-cases (errno invalid_argument) calls = inl (inr refl, refl)
  not_link-cases (errno enotdir) calls = inr (io_error enotdir, refl)
  not_link-cases (errno (other_errno n)) calls = inr (io_error (other_errno n), refl)
  not_link-cases done calls = inr (breakout, refl)
  not_link-cases (link_target t) calls = inr (breakout, refl)
  not_link-cases (file_info d t) calls = inr (breakout, refl)

  check_links-step :
      (above : List Text) (part : Text) (parts : List Text) (calls : List Call)
      (o : Result (Unit {0}) × List Call)
      → not_link os
          (os calls (readlink (path_join above)))
          (calls ++ (readlink (path_join above) ∷ []))
        ≡ o
      → check_links os above (part ∷ parts) calls
        ≡ continued (λ _. check_links os (above ++ (part ∷ [])) parts) o.0 o.1
  unfolding check_links
  check_links-step above part parts calls o e =
      ap (λ q. continued (λ _. check_links os (above ++ (part ∷ [])) parts) q.0 q.1) e

  pub check_links_lem :
      (above parts : List Text) (calls : List Call)
      → ((check_links os above parts calls ≡ (value tt, calls ++ looks above parts))
          × IsClear calls (looks above parts))
        ⊎ Refused (check_links os above parts calls) calls
  unfolding looks IsClear
  check_links_lem above [] calls = inl (unfold check_links in rw (append-nil calls) refl, tt)
  check_links_lem above (part ∷ parts) calls =
      let look : Call = readlink (path_join above) in
      let more = check_links_lem (above ++ (part ∷ [])) parts (calls ++ (look ∷ [])) in
      elim (not_link-cases (os calls look) (calls ++ (look ∷ []))) [
        | inr (p, e) ↦ inr (
          p,
          look ∷ [],
          check_links-step above part parts calls (panicked p, calls ++ (look ∷ [])) e,
          unfold AllAllowed in (refl, tt),
        )
        | inl (clear, e) ↦
            let step = check_links-step above part parts calls (value tt, calls ++ (look ∷ [])) e in
            elim more [
              | inl (g, rest) ↦ inl (
                step ∙ g ∙ ap (λ l. (value tt, l)) (append_assoc calls (look ∷ []) _),
                (clear, rest),
              )
              | inr (p, added, g, all) ↦ inr (
                p,
                look ∷ added,
                step ∙ g ∙ ap (λ l. (panicked p, l)) (append_assoc calls (look ∷ []) added),
                unfold AllAllowed in (refl, all),
              )
            ]
      ]

-- Either `PlaceFile` panics and has only read links, or the base and every part of the name above the file were
-- each found to be no link, and it does the rest after that.
pub place_file-Refused :
    (os : List Call → Call → Reply) (base : Text) (hdr : Header) (calls : List Call)
    → Refused os (place_file os base hdr calls) calls
      ⊎ (IsClear os calls (looks (base ∷ []) (split_path hdr.name))
          × (place_file os base hdr calls
              ≡ place_checked os base hdr
                  (path_join (base ∷ hdr.name ∷ []))
                  (calls ++ looks (base ∷ []) (split_path hdr.name))))
unfolding place_file
place_file-Refused os base hdr calls =
    let path : Text = path_join (base ∷ hdr.name ∷ []) in
    let go = λ (o : Result (Unit {0}) × List Call).
      continued (λ _. place_checked os base hdr path) o.0 o.1 in
    elim (check_links_lem os (base ∷ []) (split_path hdr.name) calls) [
      | inl (e, clear) ↦ inr (clear, ap go e)
      | inr (p, added, e, all) ↦ inl (p, added, ap go e, all)
    ]
