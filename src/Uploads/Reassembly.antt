-- ===== src/Uploads/Reassembly.antt =====
-- server/src/services/chunked-upload.service.ts on the disk: an upload that completes has stored the
-- file, in whatever order its chunks came.

use montr.Base.{
  ℕ, ◌*◌, ◌<◌, Text, Bool, true, false, ◌≡◌, refl, arith, nat_eq, text_eq, Option, none, some, List,
  ◌++◌, length, codes, All, Bool-cases, ◌==◌, eqb_iff, beq_refl, ap, ◌∙◌, inl, inr, Result, ok,
  throw, app_error, bad_request,
}
use montr.Base.Map.{Map, get, set, delete, get-delete}
use montr.Uploads.Sessions.{
  Bytes, on_disk, UploadSession, Uploads, Environment, or_empty, get_session, init_upload,
  chunk_dir_of, ceil_div,
}
use montr.Uploads.Completion.{Finalised, concat_chunks, remove_dir, finalize_local, complete_upload}
use montr.Uploads.Pigeonhole.{has_all, length-le, length-ge}
use montr.Uploads.Ongoing.{
  join, Holds-concat, Ongoing, sent, upload_each, upload_each-Ongoing, init_upload-Ongoing,
}

module _ (env : Environment) where
  -- Where the file of a session goes.
  abbrev pub media_path : Text → Text
  media_path filename = codes "media/" ++ env.unique_filename filename

  finalize_local-joins :
      (s : UploadSession) (dir : Text) (file : Bytes) (u : Uploads)
      → s.local_chunk_dir ≡ some dir
      → concat_chunks 0 s.total_chunks (or_empty (get dir u.chunk_dirs)) ≡ some file
      → env.write_media_ok (media_path s.original_filename) ≡ true
      → finalize_local env s u ≡ (
        remove_dir
            (env.remove_ok dir)
            dir
            (record u { media = set (media_path s.original_filename) file u.media }),
        ok (media_path s.original_filename, env.unique_filename s.original_filename, length file),
      )
  unfolding finalize_local
  finalize_local-joins s dir file u e c w = ground (arith, e, c, w)

  remove_dir-media : (b : Bool) (dir : Text) (u : Uploads) → (remove_dir b dir u).media ≡ u.media
  remove_dir-media true dir u = refl
  remove_dir-media false dir u = refl

  remove_dir-sessions :
      (b : Bool) (dir : Text) (u : Uploads) → (remove_dir b dir u).sessions ≡ u.sessions
  remove_dir-sessions true dir u = refl
  remove_dir-sessions false dir u = refl

  -- What a completed call returns of the file: its key and its size.
  abbrev pub key_and_size : Result Finalised → Option (Text × ℕ)
  key_and_size (ok r) = some (r.storage_key, r.total_size)
  key_and_size (throw e) = none

  -- The file is stored, the session is gone, and the file's key and size are returned.
  abbrev pub IsStored : Text → Text → Bytes → Uploads → Uploads × Result Finalised → Type 0
  IsStored upload_id name file before r =
      (r.0.media ≡ set (media_path name) file before.media)
      × (get upload_id r.0.sessions ≡ none)
      × (key_and_size r.1 ≡ some (media_path name, length file))

  get-delete_self : (k : Text) (m : Map Text UploadSession) → get k (delete k m) ≡ none
  get-delete_self k m = ground (arith, get-delete k k m, beq_refl k)

  -- With every chunk noted, completion stores the file and drops the session.
  pub complete_upload-full :
      (upload_id dir name : Text) (total : ℕ) (file : ℕ → Bytes) (got : ℕ → Bool) (u : Uploads)
      → env.backend ≡ on_disk
      → (h : Ongoing upload_id dir name total file got u)
      → env.write_media_ok (media_path name) ≡ true
      → ((i : ℕ) → i < total → got i ≡ true)
      → IsStored upload_id name (join file 0 total) u (complete_upload env upload_id u)
  unfolding complete_upload get_session
  complete_upload-full upload_id dir name total file got u b h w full =
      let s = h.session in
      let ge =
        length-ge total s.received_chunks h.holds.distinct (λ i l. h.received i ∙ full i l) in
      let le = length-le s.total_chunks s.received_chunks h.holds.distinct h.holds.below in
      let e : length s.received_chunks ≡ s.total_chunks = omega (arith, ge, le, h.total_chunks) in
      let t : (length s.received_chunks == s.total_chunks) ≡ true = ground (arith, e) in
      let c = Holds-concat file dir s (or_empty (get dir u.chunk_dirs)) h.holds e in
      let w' : env.write_media_ok (media_path s.original_filename) ≡ true =
        ap (λ n. env.write_media_ok (media_path n)) h.named ∙ w in
      let f = finalize_local-joins s dir _ u h.holds.in_dir c w' in
      let u' : Uploads = record u {
        media = set (media_path s.original_filename) (join file 0 s.total_chunks) u.media;
      } in
      let m = remove_dir-media (env.remove_ok dir) dir u' in
      let d = get-delete_self upload_id (remove_dir (env.remove_ok dir) dir u').sessions in
      (
        ground (arith, h.found, t, b, f, m, h.total_chunks, h.named),
        ground (arith, h.found, t, b, f, d),
        ground (arith, h.found, t, b, f, h.total_chunks, h.named),
      )

  -- With one missing, it throws and changes nothing.
  complete_upload-missing :
      (upload_id dir name : Text) (total : ℕ) (file : ℕ → Bytes) (got : ℕ → Bool) (u : Uploads)
      (i : ℕ)
      → Ongoing upload_id dir name total file got u
      → i < total
      → got i ≡ false
      → complete_upload env upload_id u ≡ (u, throw (app_error bad_request))
  unfolding complete_upload get_session
  complete_upload-missing upload_id dir name total file got u i h l miss =
      let s = h.session in
      elim (Bool-cases (length s.received_chunks == s.total_chunks)) [
        | inr short ↦ ground (arith, h.found, short)
        | inl full ↦ absurd (
            ground (
              arith,
              has_all s.total_chunks s.received_chunks h.holds.distinct h.holds.below
                  ((eqb_iff _ _).0 full) i,
              h.received i,
              h.total_chunks,
            ))
      ]

  -- Upload the chunks of a file in the order of a list.
  abbrev pub chunks_of : ℕ → ℕ
  chunks_of size = ceil_div size (env.chunk_size_mb * 1024 * 1024)

  abbrev pub start_and_upload :
      Text → Text → Text → ℕ → Option ℕ → ℕ → (ℕ → Bytes) → List (ℕ × ℕ) → Uploads → Uploads
  start_and_upload upload_id filename mime size folder now file order u =
      upload_each env upload_id file order
        (init_upload env upload_id filename mime size folder now u).0

  -- On the disk backend, when writing the chunks and the file succeeds: an upload is started and the
  -- chunks of a file are sent in any order, repeats allowed, all with indices in range. If every index
  -- was sent, completing the upload stores the chunks in the order of their indices under the file's
  -- path, drops the session, and returns that path and the file's length.
  pub upload-reassembles :
      (upload_id filename mime : Text) (size : ℕ) (folder : Option ℕ) (now : ℕ) (file : ℕ → Bytes)
      (order : List (ℕ × ℕ)) (u : Uploads)
      → env.backend ≡ on_disk
      → ((i : ℕ) → env.write_ok (chunk_dir_of upload_id) i (file i) ≡ true)
      → env.write_media_ok (media_path filename) ≡ true
      → All (λ c. c.0 < chunks_of size) order
      → ((i : ℕ) → i < chunks_of size → sent order i ≡ true)
      → IsStored upload_id filename
          (join file 0 (chunks_of size))
          (start_and_upload upload_id filename mime size folder now file order u)
          (complete_upload env upload_id
            (start_and_upload upload_id filename mime size folder now file order u))
  upload-reassembles upload_id filename mime size folder now file order u b w v a full =
      let start = init_upload-Ongoing env upload_id filename mime size folder now file u b in
      let ready =
        upload_each-Ongoing env upload_id _ filename _ file order (λ j. false) _ b w a start in
      complete_upload-full upload_id _ filename _ file _ _ b ready v
        (λ i l. ground (arith, full i l))

  -- On the disk backend, when writing the chunks succeeds: an upload is started and chunks of a file are
  -- sent in any order, repeats allowed, all with indices in range. If some index in range was not sent,
  -- completing the upload throws BAD_REQUEST and changes nothing.
  pub upload-incomplete :
      (upload_id filename mime : Text) (size : ℕ) (folder : Option ℕ) (now : ℕ) (file : ℕ → Bytes)
      (order : List (ℕ × ℕ)) (u : Uploads) (i : ℕ)
      → env.backend ≡ on_disk
      → ((j : ℕ) → env.write_ok (chunk_dir_of upload_id) j (file j) ≡ true)
      → All (λ c. c.0 < chunks_of size) order
      → i < chunks_of size
      → sent order i ≡ false
      → complete_upload env upload_id
          (start_and_upload upload_id filename mime size folder now file order u)
        ≡ (
          start_and_upload upload_id filename mime size folder now file order u,
          throw (app_error bad_request),
        )
  upload-incomplete upload_id filename mime size folder now file order u i b w a l miss =
      let start = init_upload-Ongoing env upload_id filename mime size folder now file u b in
      let ready =
        upload_each-Ongoing env upload_id _ filename _ file order (λ j. false) _ b w a start in
      complete_upload-missing upload_id _ filename _ file _ _ i ready l (ground (arith, miss))
