-- ===== src/Uploads/Completion.antt =====
-- server/src/services/chunked-upload.service.ts: the end of an upload, by completion, abort or age.
use montr.Base.{
  ℕ, zero, suc, ◌+◌, ◌-◌, Text, Bool, true, false, not, Option, none, some, List, [], ◌∷◌, ◌++◌,
  map, filter, codes, ltb, leb, if◌then◌else◌, ◌==◌, text_eq, nat_eq, length, Action, app_error,
  foreign, bad_request, ◌>>=◌, ◌>>◌, give, fail, reads, writes, require, reject_if,
}
use montr.Base.Map.{Map, get, set, delete, values}
use montr.Uploads.Sessions.{
  Bytes, Backend, spaces, on_disk, ChunkInfo, UploadSession, Uploads, Environment, or_empty,
  get_session,
}

pub record Finalised : Type 0 where
  pub storage_backend : Backend
  pub storage_key : Text
  pub filename : Text
  pub total_size : ℕ
  pub original_filename : Text
  pub mime_type : Text
  pub folder_id : Option ℕ

abbrev pub Stored : Type 0
Stored = Text × Text × ℕ

abbrev pub insert_part : ℕ × Option Text → List (ℕ × Option Text) → List (ℕ × Option Text)
insert_part p [] = p ∷ []
insert_part p (q ∷ qs) = if leb p.0 q.0 then p ∷ q ∷ qs else q ∷ insert_part p qs

-- `parts.sort((a, b) => a.PartNumber - b.PartNumber)`
abbrev pub sort_parts : List (ℕ × Option Text) → List (ℕ × Option Text)
sort_parts [] = []
sort_parts (p ∷ ps) = insert_part p (sort_parts ps)

abbrev pub parts_of : Map ℕ ChunkInfo → List (ℕ × Option Text)
parts_of received = sort_parts (map (λ e. (e.0 + 1, e.1.etag)) received)

abbrev pub sum_sizes : List ChunkInfo → ℕ
sum_sizes [] = 0
sum_sizes (c ∷ cs) = c.size + sum_sizes cs

-- The chunk files from number `i`, `n` of them, one after the other; `none` if one is missing.
unfoldable pub concat_chunks : ℕ → ℕ → Map ℕ Bytes → Option Bytes
concat_chunks i zero dir = some []
concat_chunks i (suc n) dir = elim (get i dir) [
  | none ↦ none
  | some bytes ↦ elim (concat_chunks (i + 1) n dir) [
    | none ↦ none
    | some rest ↦ some (bytes ++ rest)
  ]
]

-- The sessions that had no activity for longer than `max_age`.
abbrev pub stale_ids : ℕ → ℕ → Map Text UploadSession → List Text
stale_ids now max_age sessions =
    map (λ e. e.0) (filter (λ e. ltb max_age (now - e.1.last_activity)) sessions)

abbrev pub unlink_media : Text → Action Uploads (Unit {0})
unlink_media path = writes (λ u. record u { media = delete path u.media })

abbrev pub create_media : Text → Bytes → Action Uploads (Unit {0})
create_media path bytes = writes (λ u. record u { media = set path bytes u.media })

abbrev pub remove_dir : Bool → Text → Uploads → Uploads
remove_dir true dir u = record u { chunk_dirs = delete dir u.chunk_dirs }
remove_dir false dir u = u

abbrev pub drop_session : Text → Action Uploads (Unit {0})
drop_session upload_id = writes (λ u. record u { sessions = delete upload_id u.sessions })

module _ (env : Environment) where
  -- `finalizeSpacesUpload`
  unfoldable pub finalize_spaces : UploadSession → Action Uploads Stored
  finalize_spaces session = do
    key ← require foreign session.s3_key
    s3_id ← require foreign session.s3_upload_id
    reject_if (not (env.complete_multipart key s3_id (parts_of session.received_chunks))) foreign
    give (key, env.basename key, sum_sizes (values session.received_chunks))

  -- `finalizeLocalUpload`; a directory that cannot be removed is left.
  unfoldable pub finalize_local : UploadSession → Action Uploads Stored
  unfolding concat_chunks
  finalize_local session = do
    let name = env.unique_filename session.original_filename
    let path = codes "media/" ++ name
    dir ← require foreign session.local_chunk_dir
    chunks ← reads (λ u. or_empty (get dir u.chunk_dirs))
    elim (concat_chunks 0 session.total_chunks chunks) [
      | none ↦ do unlink_media path; fail foreign
      | some bytes ↦ elim (env.write_media_ok path) [
        | false ↦ do unlink_media path; fail foreign
        | true ↦ do
          create_media path bytes
          writes (remove_dir (env.remove_ok dir) dir)
          give (path, name, length bytes)
      ]
    ]

  abbrev pub finalize : UploadSession → Action Uploads Stored
  finalize session = elim env.backend [
    | spaces ↦ finalize_spaces session
    | on_disk ↦ finalize_local session
  ]

  -- `completeUpload`
  unfoldable pub complete_upload : Text → Action Uploads Finalised
  unfolding get_session finalize_spaces finalize_local
  complete_upload upload_id = do
    session ← get_session upload_id
    reject_if (not (length session.received_chunks == session.total_chunks)) (app_error bad_request)
    stored ← finalize session
    drop_session upload_id
    give (record {
      storage_backend = env.backend;
      storage_key = stored.0;
      filename = stored.1;
      total_size = stored.2;
      original_filename = session.original_filename;
      mime_type = session.mime_type;
      folder_id = session.folder_id;
    })

  -- What `abortUpload` removes from the disk; the abort of an S3 upload leaves the disk as it is.
  abbrev pub clean_up : UploadSession → Uploads → Uploads
  clean_up session u = elim session.local_chunk_dir [
    | none ↦ u
    | some dir ↦ remove_dir (env.remove_ok dir) dir u
  ]

  abbrev pub aborts_s3 : UploadSession → Bool
  aborts_s3 session = elim env.backend [
    | on_disk ↦ false
    | spaces ↦ elim session.s3_upload_id [ none ↦ false | some id ↦ true ]
  ]

  -- `abortUpload`; what goes wrong is logged.
  unfoldable pub abort_upload : Text → Uploads → Uploads
  abort_upload upload_id u = elim (get upload_id u.sessions) [
    | none ↦ u
    | some session ↦
        let cleaned = if aborts_s3 session then u else clean_up session u in
        record cleaned { sessions = delete upload_id cleaned.sessions }
  ]

  -- `cleanupStaleSessions`
  unfoldable pub abort_each : List Text → Uploads → Uploads
  unfolding abort_upload
  abort_each [] u = u
  abort_each (id ∷ ids) u = abort_each ids (abort_upload id u)

  unfoldable pub cleanup_stale_sessions : ℕ → ℕ → Uploads → Uploads
  unfolding abort_each
  cleanup_stale_sessions now max_age u = abort_each (stale_ids now max_age u.sessions) u
