-- ===== src/Api/Images/Upload.antt =====
-- `upload_base_image`: every way that it can end, and the files that it leaves.
use Prim.Native.String.{◌++◌ as str_append}
use knpodly.Base.{
  append_assoc, append_nil, ℕ, ◌+◌, pos, ltb_ℤ, ◌≤ℤ◌, ◌<ℤ◌, ◌≡◌, refl, sym, ap, ◌∙◌, inl, inr,
  String, true, false, not, none, some, List, [], ◌∷◌, ◌++◌, length, length-append, str_eq, eq_iff,
  arith, Bool-cases, if◌then◌else◌,
}
use text.Mathlib.TextLemmas.{append_cancel_left, append-nil}
use knpodly.Exec.{Error, Result, ok, err, http_exception, pure, modify, ◌>>=◌, ◌>>◌}
use knpodly.Exec.Runs.{Runs, Runs-refl, Runs-raise_if-pass, Runs-raise_if-fail}
use knpodly.Exec.Checks.{ok-bind, err-bind}
use knpodly.Text.{path_join}
use knpodly.Models.{User, number}
use knpodly.Api.{is_staff, require_roles}
use knpodly.Files.{
  file_at, put, append, remove, replace, file_at-remove, file_at-put, file_at-append,
  file_at-replace,
}
use knpodly.World.{World, Env, record_audit}
use knpodly.Api.Images.{
  UploadFile, slug_ok, is_qcow2, make_folder, on_files, image_audit, is_empty_chunk, write_chunk,
  receive, upload_base_image,
}

-- What the reads bring before the first empty one.
abbrev pub received : List (List ℕ) → List ℕ
received [] = []
received (chunk ∷ chunks) =
    let rest = received chunks in if is_empty_chunk chunk then [] else chunk ++ rest

module _ {H : Type 0} (env : Env H) (tmp : String) where
  -- Nothing but the temporary file changes.
  record Aside (w v : World H) : Type 0 where
    rest : v ≡ record w { files = v.files }
    others : (p : String) → str_eq tmp p ≡ false → file_at p v.files ≡ file_at p w.files

  abbrev Receives : ℕ → List ℕ → List (List ℕ) → World H → Result ℕ × World H → Type 0
  Receives size acc chunks w (ok n, v) =
      Aside w v
      × (n ≡ size + length (received chunks))
      × (pos n ≤ℤ env.settings.max_upload_bytes)
      × (file_at tmp v.files ≡ some (acc ++ received chunks))
  Receives size acc chunks w (err e, v) =
      Aside w v
      × (e ≡ http_exception 413 "Image exceeds maximum upload size")
      × (env.settings.max_upload_bytes <ℤ pos (size + length (received chunks)))
      × (file_at tmp v.files ≡ none)

  within :
      (n : ℕ)
      → ltb_ℤ env.settings.max_upload_bytes (pos n) ≡ false
      → pos n ≤ℤ env.settings.max_upload_bytes
  within n h = ground arith

  too_large :
      (a b size : ℕ) {l : ℕ}
      → ltb_ℤ env.settings.max_upload_bytes (pos (size + a)) ≡ true
      → l ≡ a + b
      → env.settings.max_upload_bytes <ℤ pos (size + l)
  too_large a b size h e = ground arith

  same_tmp : str_eq tmp tmp ≡ true
  same_tmp = (eq_iff tmp tmp).1 refl

  removed-Aside : (w : World H) → Aside w (record w { files = remove tmp w.files })
  removed-Aside w = record {
    rest = refl;
    others = λ p other. file_at-remove p tmp w.files ∙ rw other refl;
  }

  -- A chunk is in the file.
  abbrev wrote : List ℕ → World H → World H
  wrote chunk w = record w { files = append tmp chunk w.files }

  wrote-Aside :
      (acc chunk : List ℕ) (w v : World H)
      → file_at tmp w.files ≡ some acc
      → Aside (wrote chunk w) v
      → Aside w v
  wrote-Aside acc chunk w v at_tmp aside = record {
    rest = aside.rest;
    others = λ p other.
        aside.others p other ∙ file_at-append p tmp acc chunk w.files at_tmp ∙ rw other refl;
  }

  wrote-Receives :
      (size : ℕ) (acc : List ℕ) (b : ℕ) (bytes : List ℕ) (chunks : List (List ℕ)) (w : World H)
      (r : Result ℕ × World H)
      → file_at tmp w.files ≡ some acc
      → Receives (size + length (b ∷ bytes)) (acc ++ (b ∷ bytes)) chunks (wrote (b ∷ bytes) w) r
      → Receives size acc ((b ∷ bytes) ∷ chunks) w r
  wrote-Receives size acc b bytes chunks w (ok n, v) at_tmp (aside, count, small, at) = (
    wrote-Aside acc (b ∷ bytes) w v at_tmp aside,
    omega (arith, count, length-append (b ∷ bytes) (received chunks)),
    small,
    at ∙ ap some (append_assoc acc (b ∷ bytes) (received chunks)),
  )
  wrote-Receives size acc b bytes chunks w (err e, v) at_tmp (aside, why, large, at) = (
    wrote-Aside acc (b ∷ bytes) w v at_tmp aside,
    why,
    omega (arith, large, length-append (b ∷ bytes) (received chunks)),
    at,
  )

  write_chunk-over :
      (n : ℕ) (chunk : List ℕ) (w : World H)
      → ltb_ℤ env.settings.max_upload_bytes (pos n) ≡ true
      → Runs (write_chunk env tmp n chunk) w (
        err (http_exception 413 "Image exceeds maximum upload size"),
        record w { files = remove tmp w.files },
      )
  unfolding write_chunk ◌>>=◌
  write_chunk-over n chunk w over = record { at = rw over refl }

  write_chunk-fits :
      (n : ℕ) (chunk : List ℕ) (w : World H)
      → ltb_ℤ env.settings.max_upload_bytes (pos n) ≡ false
      → Runs (write_chunk env tmp n chunk) w (ok tt, wrote chunk w)
  unfolding write_chunk
  write_chunk-fits n chunk w fits = record { at = rw fits refl }

  receive-Receives :
      (size : ℕ) (acc : List ℕ) (chunks : List (List ℕ)) (w : World H)
      → pos size ≤ℤ env.settings.max_upload_bytes
      → file_at tmp w.files ≡ some acc
      → Receives size acc chunks w (receive env tmp size chunks w)
  unfolding receive
  receive-Receives size acc [] w small at_tmp = (
    record { rest = refl; others = λ p h. refl },
    omega arith,
    small,
    at_tmp ∙ ap some (sym (append_nil acc)),
  )
  receive-Receives size acc ([] ∷ chunks) w small at_tmp = (
    record { rest = refl; others = λ p h. refl },
    omega arith,
    small,
    at_tmp ∙ ap some (sym (append_nil acc)),
  )
  receive-Receives size acc ((b ∷ bytes) ∷ chunks) w small at_tmp =
      let chunk = b ∷ bytes in
      let n = size + length chunk in
      elim (Bool-cases (ltb_ℤ env.settings.max_upload_bytes (pos n))) [
        | inl over ↦
            err-bind (Receives size acc (chunk ∷ chunks) w) _ (write_chunk-over n chunk w over) (
              removed-Aside w,
              refl,
              too_large (length chunk) (length (received chunks)) size over
                  (length-append chunk (received chunks)),
              file_at-remove tmp tmp w.files ∙ rw same_tmp refl,
            )
        | inr fits ↦
            ok-bind (Receives size acc (chunk ∷ chunks) w) _ (write_chunk-fits n chunk w fits) (
              wrote-Receives size acc b bytes chunks w _ at_tmp (
                receive-Receives n (acc ++ chunk) chunks (wrote chunk w) (within n fits)
                  (file_at-append tmp tmp acc chunk w.files at_tmp ∙ rw same_tmp refl)))
      ]

longer : (d : String) → str_append d ".uploading" ≡ d → ⊥
longer d h = let bad = append_cancel_left d ".uploading" "" (h ∙ sym (append-nil d)) in cc

tmp_apart : (d : String) → str_eq (str_append d ".uploading") d ≡ false
tmp_apart d = elim (Bool-cases (str_eq (str_append d ".uploading") d)) [
  | inl e ↦ absurd (longer d ((eq_iff (str_append d ".uploading") d).0 e))
  | inr e ↦ e
]

module _ {H : Type 0} (env : Env H) (user : User) (slug : String) (file : UploadFile)
    (w : World H) where
  abbrev pub dest_path : String
  dest_path = path_join (path_join env.settings.vm_images_path slug) "base.qcow2"

  abbrev pub tmp_path : String
  tmp_path = str_append dest_path ".uploading"

  -- Why an upload is refused.
  pub data Refusal (e : Error) : Type 0 where
    not_staff :
        is_staff user.role ≡ false → e ≡ http_exception 403 "Insufficient permissions" → Refusal e
    bad_slug :
        slug_ok env.builtins slug ≡ false
        → e ≡ http_exception 400 "Slug must be alphanumeric (dashes/dots allowed)"
        → Refusal e
    bad_name :
        is_qcow2 file.filename ≡ false → e ≡ http_exception 400 "Expected a .qcow2 file" → Refusal e
    too_big :
        env.settings.max_upload_bytes <ℤ pos (length (received file.chunks))
        → e ≡ http_exception 413 "Image exceeds maximum upload size"
        → Refusal e

  -- All files but the temporary one and the image itself.
  abbrev pub OthersKept : World H → Type 0
  OthersKept v =
      (p : String)
      → str_eq tmp_path p ≡ false
      → str_eq dest_path p ≡ false
      → file_at p v.files ≡ file_at p w.files

  abbrev pub Uploads : Result ℕ × World H → Type 0
  Uploads (ok n, v) =
      (is_staff user.role ≡ true)
      × (slug_ok env.builtins slug ≡ true)
      × (is_qcow2 file.filename ≡ true)
      × (n ≡ length (received file.chunks))
      × (pos n ≤ℤ env.settings.max_upload_bytes)
      × (file_at dest_path v.files ≡ some (received file.chunks))
      × (file_at tmp_path v.files ≡ none)
      × OthersKept v
  Uploads (err e, v) =
      Refusal e
      × (file_at dest_path v.files ≡ file_at dest_path w.files)
      × (v.audit_logs ≡ w.audit_logs)
      × OthersKept v

  abbrev opened : World H
  opened = record w {
    image_folders = make_folder slug w.image_folders;
    files = put tmp_path [] w.files;
  }

  opened-others :
      (p : String) → str_eq tmp_path p ≡ false → file_at p opened.files ≡ file_at p w.files
  opened-others p other = file_at-put p tmp_path [] w.files ∙ rw other refl

  -- From the loop on.
  received-Uploads :
      is_staff user.role ≡ true
      → slug_ok env.builtins slug ≡ true
      → is_qcow2 file.filename ≡ true
      → (r : Result ℕ × World H) → receive env tmp_path 0 file.chunks opened ≡ r
      → Receives env tmp_path 0 [] file.chunks opened r
      → Uploads (
          (do
            size ← receive env tmp_path 0 file.chunks
            on_files (replace tmp_path dest_path)
            record_audit
                (image_audit user "image.uploaded" slug (some (("bytes", number (pos size)) ∷ [])))
            pure size)
            opened)
  received-Uploads staff named typed (err e, v) runs (aside, why, large, gone) =
      err-bind Uploads _ {t = v} {e = e} (record { at = runs })
        (
          too_big (omega (arith, large)) why,
          aside.others dest_path (tmp_apart dest_path)
              ∙ opened-others dest_path (tmp_apart dest_path),
          rw (aside.rest) refl,
          λ p other _. aside.others p other ∙ opened-others p other,
        )
  received-Uploads staff named typed (ok n, v) runs (aside, count, small, at) =
      let finds =
        λ (p : String). file_at-replace p tmp_path dest_path (received file.chunks) v.files at in
      ok-bind Uploads _ {t = v} {a = n} (record { at = runs })
        (ok-bind Uploads _ (Runs-refl (on_files (replace tmp_path dest_path)) v) (
          ok-bind Uploads _ (Runs-refl (record_audit _) _) (
            staff,
            named,
            typed,
            omega (arith, count),
            small,
            finds dest_path ∙ rw ((eq_iff dest_path dest_path).1 refl) refl,
            finds tmp_path ∙ rw (apart_sym, (eq_iff tmp_path tmp_path).1 refl) refl,
            λ p other elsewhere.
                finds p ∙ rw (elsewhere, other) (aside.others p other ∙ opened-others p other),
          )))
    where
      apart_sym : str_eq dest_path tmp_path ≡ false
      apart_sym =
          ground (arith, tmp_apart dest_path, eq_iff dest_path tmp_path, eq_iff tmp_path dest_path)

  -- An upload of a base image either puts exactly the bytes that were received in the place of the
  -- image of its slug, within the limit of the settings, leaves no temporary file and changes no
  -- other file; or it is refused, because the user is a student, the slug or the name of the file is
  -- not as required, or the bytes exceed the limit, and then the image that was there and all other
  -- files but the temporary one are as they were and nothing is recorded. The limit is not
  -- negative.
  pub upload_base_image-Uploads :
      pos 0 ≤ℤ env.settings.max_upload_bytes → Uploads (upload_base_image env user slug file w)
  unfolding upload_base_image require_roles
  upload_base_image-Uploads limit = elim (Bool-cases (is_staff user.role)) [
    | inr e ↦
        err-bind Uploads _ (Runs-raise_if-fail _ w (ap not e))
          (not_staff e refl, refl, refl, λ p h k. refl)
    | inl staff ↦
        ok-bind Uploads _ (Runs-raise_if-pass _ w (ap not staff))
          (elim (Bool-cases (slug_ok env.builtins slug)) [
            | inr e ↦
                err-bind Uploads _ (Runs-raise_if-fail _ w (ap not e))
                  (bad_slug e refl, refl, refl, λ p h k. refl)
            | inl named ↦
                ok-bind Uploads _ (Runs-raise_if-pass _ w (ap not named))
                  (elim (Bool-cases (is_qcow2 file.filename)) [
                    | inr e ↦
                        err-bind Uploads _ (Runs-raise_if-fail _ w (ap not e))
                          (bad_name e refl, refl, refl, λ p h k. refl)
                    | inl typed ↦ ok-bind Uploads _ (Runs-raise_if-pass _ w (ap not typed)) (
                        ok-bind Uploads _ (Runs-refl (modify _) w) (
                          ok-bind Uploads _ (Runs-refl (on_files (put tmp_path [])) _) (
                            received-Uploads staff named typed _ refl (
                              receive-Receives env tmp_path 0 [] file.chunks opened limit (
                                file_at-put tmp_path tmp_path [] w.files
                                ∙ rw ((eq_iff tmp_path tmp_path).1 refl) refl)))))
                  ])
          ])
  ]
