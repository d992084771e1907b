-- ===== src/Connections/Files.antt =====
-- internal/c2/files.go: ReadFile and GetHCLFiles. What os.ReadFile and hclsimple.Decode answer for a file, an error or the
-- content, are `read` and `decode`; the names, or the error of the search for them, are given.
use isitsql.Common.{◌≡◌, refl, ap, ◌⊎◌, inl, inr, Option, List, [], ◌∷◌, ◌++◌, Text}
use isitsql.Connections.{ConnectionFile, ConfigMaps, Message, make_map}
use isitsql.Connections.Slashes.{fix_slashes}

-- What GetHCLFiles fails with: the error, and what it is wrapped in
pub data HclError : Type 0 where
  find_error : Text → HclError
  read_error : Text → HclError
  decode_error : Text → HclError

sum-cases : {A B : Type 0} (s : A ⊎ B) → ((a : A) × (s ≡ inl a)) ⊎ ((b : B) × (s ≡ inr b))
sum-cases (inl a) = inl (a, refl)
sum-cases (inr b) = inr (b, refl)

module _ (read : Text → Text ⊎ Text) where
  unfoldable read_file : Text → Text ⊎ Text
  read_file f = elim (read f) [ inl e ↦ inl e | inr bb ↦ inr (fix_slashes bb) ]

  module _ (decode : Text → Text → Text ⊎ ConnectionFile) where
    -- One round of the loop
    unfoldable load_file : Text → HclError ⊎ ConnectionFile
    unfolding read_file fix_slashes
    load_file f = elim (read_file f) [
      | inl e ↦ inl (read_error e)
      | inr bb ↦ elim (decode f bb) [ inl e ↦ inl (decode_error e) | inr cf ↦ inr cf ]
    ]

    -- The loop over the names, which ends at the first error
    unfoldable load_files : List Text → HclError ⊎ List ConnectionFile
    unfolding load_file
    load_files [] = inr []
    load_files (f ∷ fs) = elim (load_file f) [
      | inl e ↦ inl e
      | inr cf ↦ elim (load_files fs) [ inl e ↦ inl e | inr cfs ↦ inr (cf ∷ cfs) ]
    ]

    -- A file fails with an error, or gives a file of connections.
    abbrev pub Fails : Text → HclError → Type 0
    Fails f (find_error e) = ⊥
    Fails f (read_error e) = read f ≡ inl e
    Fails f (decode_error e) = (bb : Text) × (read f ≡ inr bb) × (decode f (fix_slashes bb) ≡ inl e)

    abbrev pub IsLoaded : Text → ConnectionFile → Type 0
    IsLoaded f cf = (bb : Text) × (read f ≡ inr bb) × (decode f (fix_slashes bb) ≡ inr cf)

    abbrev pub AreLoaded : List Text → List ConnectionFile → Type 0
    AreLoaded [] [] = Unit
    AreLoaded (f ∷ fs) (cf ∷ cfs) = IsLoaded f cf × AreLoaded fs cfs
    AreLoaded fs cfs = ⊥

    load_file-cases :
        (f : Text)
        → ((e : HclError) × Fails f e × (load_file f ≡ inl e))
          ⊎ ((cf : ConnectionFile) × IsLoaded f cf × (load_file f ≡ inr cf))
    unfolding load_file read_file
    load_file-cases f = elim (sum-cases (read f)) [
      | inl (e, q) ↦ inl (read_error e, q, rw (load_file, read_file, q) refl)
      | inr (bb, q) ↦ elim (sum-cases (decode f (fix_slashes bb))) [
        | inl (e, p) ↦ inl (decode_error e, (bb, q, p), rw (load_file, read_file, q) (rw p refl))
        | inr (cf, p) ↦ inr (cf, (bb, q, p), rw (load_file, read_file, q) (rw p refl))
      ]
    ]

    -- The files before the one that fails, which are loaded, and its error
    abbrev pub FailsFirst : List Text → HclError → Type 0
    FailsFirst fs e =
        (before : List Text) × (f : Text) × (after : List Text) × (cfs : List ConnectionFile) × (fs
          ≡ before ++ (f ∷ after))
        × AreLoaded before cfs
        × Fails f e

    load_files-cases :
        (fs : List Text)
        → ((e : HclError) × FailsFirst fs e × (load_files fs ≡ inl e))
          ⊎ ((cfs : List ConnectionFile) × AreLoaded fs cfs × (load_files fs ≡ inr cfs))
    unfolding load_files
    load_files-cases [] = inr ([], tt, refl)
    load_files-cases (f ∷ fs) =
        let rest = load_files-cases fs in
        elim (load_file-cases f) [
          | inl (e, h, q) ↦ inl (e, ([], f, fs, [], refl, tt, h), rw (load_files, q) refl)
          | inr (cf, h, q) ↦ elim rest [
            | inl (e, (before, g, after, cfs, same, all, fails), p) ↦ inl (
              e,
              (f ∷ before, g, after, cf ∷ cfs, ap (λ l. f ∷ l) same, (h, all), fails),
              rw (load_files, q) (rw p refl),
            )
            | inr (cfs, all, p) ↦ inr (cf ∷ cfs, (h, all), rw (load_files, q) (rw p refl))
          ]
        ]

    module _ (coalesce : Option Text → Text → Text) (lower trim_space : Text → Text) where
      unfoldable pub get_hcl_files : Text ⊎ List Text → HclError ⊎ (ConfigMaps × List Message)
      unfolding load_files
      get_hcl_files (inl e) = inl (find_error e)
      get_hcl_files (inr names) = elim (load_files names) [
        | inl e ↦ inl e
        | inr files ↦ inr (make_map coalesce lower trim_space names files)
      ]

      -- For whatever the files are: either one of them cannot be read or decoded, those before it can, and GetHCLFiles
      -- ends in its error; or all of them are decoded from their contents with the slashes fixed, and it answers the map
      -- that makeMap makes of them, in the order of the names.
      pub get_hcl_files-cases :
          (names : List Text)
          → ((e : HclError) × FailsFirst names e × (get_hcl_files (inr names) ≡ inl e))
            ⊎ ((files : List ConnectionFile) × AreLoaded names files
                × (get_hcl_files (inr names)
                    ≡ inr (make_map coalesce lower trim_space names files)))
      unfolding get_hcl_files
      get_hcl_files-cases names = elim (load_files-cases names) [
        | inl (e, h, q) ↦ inl (e, h, rw (get_hcl_files, q) refl)
        | inr (files, h, q) ↦ inr (files, h, rw (get_hcl_files, q) refl)
      ]
