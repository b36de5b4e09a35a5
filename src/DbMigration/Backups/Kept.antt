-- ===== src/DbMigration/Backups/Kept.antt =====
-- sync/dao/db.backup.manager/index.js: which files `manageDBBackupFiles` keeps.
use bfx_reports_framework.Base.{
  ℕ, zero, suc, ◌==◌, ◌≡◌, refl, true, false, not, filter, List, [], ◌∷◌, arith,
}
use bfx_reports_framework.DbMigration.{Backup}
use bfx_reports_framework.DbMigration.Backups.{first_uniq_files_by_ver, is_kept, kept_files}

module _ {D : Type 0} where
  abbrev pub take : ℕ → List (Backup D) → List (Backup D)
  take zero files = []
  take (suc n) [] = []
  take (suc n) (file ∷ files) = file ∷ take n files

  abbrev pub of_ver : ℕ → List (Backup D) → List (Backup D)
  of_ver version = filter (λ m. m.version == version)

  abbrev pub of_other_ver : ℕ → List (Backup D) → List (Backup D)
  of_other_ver version = filter (λ m. not (m.version == version))

  one_kept : (f : Backup D) (ver : ℕ) → is_kept (f ∷ []) ver ≡ true
  unfolding is_kept first_uniq_files_by_ver
  one_kept f ver = ground arith

  two_same :
      (f g : Backup D) (ver : ℕ)
      → (g.version == f.version) ≡ true
      → is_kept (f ∷ g ∷ []) ver ≡ not (ver == f.version)
  unfolding is_kept first_uniq_files_by_ver
  two_same f g ver h = ground arith

  two_other :
      (f g : Backup D) (ver : ℕ)
      → (g.version == f.version) ≡ false
      → is_kept (f ∷ g ∷ []) ver ≡ (ver == f.version)
  unfolding is_kept first_uniq_files_by_ver
  two_other f g ver h = ground arith

  three_same :
      (f g k : Backup D) (ver : ℕ)
      → (g.version == f.version) ≡ true
      → (k.version == f.version) ≡ false
      → is_kept (f ∷ g ∷ k ∷ []) ver ≡ false
  unfolding is_kept first_uniq_files_by_ver
  three_same f g k ver h j = ground arith

  three_other :
      (f g k : Backup D) (ver : ℕ)
      → (g.version == f.version) ≡ false
      → (k.version == f.version) ≡ true
      → is_kept (f ∷ g ∷ k ∷ []) ver ≡ false
  unfolding is_kept first_uniq_files_by_ver
  three_other f g k ver h j = ground arith

  full :
      (f g k : Backup D)
      → ((ver : ℕ) → is_kept (f ∷ g ∷ k ∷ []) ver ≡ false)
      → (files : List (Backup D)) → kept_files (f ∷ g ∷ k ∷ []) files ≡ f ∷ g ∷ k ∷ []
  unfolding kept_files
  full f g k h [] = refl
  full f g k h (file ∷ files) = rw (h file.version) (full f g k h files)

  after_same :
      (f g : Backup D)
      → (g.version == f.version) ≡ true
      → (files : List (Backup D))
      → kept_files (f ∷ g ∷ []) files ≡ f ∷ g ∷ take 1 (of_other_ver f.version files)
  unfolding kept_files
  after_same f g h [] = refl
  after_same f g h (file ∷ files) = ground (
    arith,
    two_same f g file.version h,
    after_same f g h files,
    λ (e : (file.version == f.version) ≡ false).
        full f g file (λ ver. three_same f g file ver h e) files,
  )

  after_other :
      (f g : Backup D)
      → (g.version == f.version) ≡ false
      → (files : List (Backup D))
      → kept_files (f ∷ g ∷ []) files ≡ f ∷ g ∷ take 1 (of_ver f.version files)
  unfolding kept_files
  after_other f g h [] = refl
  after_other f g h (file ∷ files) = ground (
    arith,
    two_other f g file.version h,
    after_other f g h files,
    λ (e : (file.version == f.version) ≡ true).
        full f g file (λ ver. three_other f g file ver h e) files,
  )

  of_ver-take :
      (ver : ℕ) (files : List (Backup D))
      → (of_ver ver (take 1 (of_other_ver ver files)) ≡ [])
        × (of_other_ver ver (take 1 (of_other_ver ver files)) ≡ take 1 (of_other_ver ver files))
        × (of_ver ver (take 1 (of_ver ver files)) ≡ take 1 (of_ver ver files))
        × (of_other_ver ver (take 1 (of_ver ver files)) ≡ [])
  of_ver-take ver [] = (refl, refl, refl, refl)
  of_ver-take ver (file ∷ files) = ground (arith, of_ver-take ver files)

  -- Of the files in the order of `getBackupFilesMetadata`, the newest version first, manageDBBackupFiles
  -- keeps exactly the first two of the first file's version and the first one of all other versions.
  pub kept_files-take :
      (f : Backup D) (files : List (Backup D))
      → (of_ver f.version (kept_files [] (f ∷ files)) ≡ take 2 (of_ver f.version (f ∷ files)))
        × (of_other_ver f.version (kept_files [] (f ∷ files))
            ≡ take 1 (of_other_ver f.version (f ∷ files)))
  unfolding kept_files
  kept_files-take f [] = ground arith
  kept_files-take f (file ∷ files) = ground (
    arith,
    one_kept f file.version,
    of_ver-take f.version files,
    λ (e : (file.version == f.version) ≡ true). after_same f file e files,
    λ (e : (file.version == f.version) ≡ false). after_other f file e files,
  )
