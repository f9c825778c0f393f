-- ===== src/Uploads/Examples.antt =====
-- Example uploads to the disk.
use montr.Base.{
  ℕ, ◌<◌, true, false, none, some, List, [], ◌∷◌, codes, text_beq, text_eq, nat_eq, ◌≡◌, refl,
  arith, throw, app_error, foreign, bad_request,
}
use montr.Base.Map.{get, has}
use montr.Uploads.Sessions.{
  Bytes, on_disk, index, UploadSession, Uploads, Environment, upload_chunk,
}
use montr.Uploads.Completion.{complete_upload, cleanup_stale_sessions}
use montr.Uploads.Ongoing.{join, sent}
use montr.Uploads.Reassembly.{IsStored, start_and_upload, upload-reassembles, upload-incomplete}
use montr.Uploads.Retry.{with_chunk, failed_retry-IsStored}
use montr.Uploads.Stale.{keep_fresh, cleanup_stale_sessions-get}

-- A disk on which all works, with chunks of one megabyte.
abbrev disk : Environment
disk = record {
  backend = on_disk;
  chunk_size_mb = 1;
  unique_filename = λ name. b'u' ∷ name;
  init_multipart = λ key. none;
  upload_part = λ key id part bytes. none;
  complete_multipart = λ key id parts. false;
  write_ok = λ dir i bytes. true;
  partial = λ dir i bytes. [];
  write_media_ok = λ path. true;
  remove_ok = λ dir. true;
  basename = λ path. path;
}

-- The same disk when it is full.
abbrev full_disk : Environment
full_disk = record disk { write_ok = λ dir i bytes. false }

abbrev empty_uploads : Uploads
empty_uploads = record { sessions = []; chunk_dirs = []; media = [] }

abbrev two_chunks : ℕ → Bytes
two_chunks i = i ∷ i ∷ []

-- A size of two chunks.
abbrev size : ℕ
size = 1500000

-- The second chunk comes first, and the first one twice.
abbrev order : List (ℕ × ℕ)
order = (1, 10) ∷ (0, 20) ∷ (0, 30) ∷ []

below_two : (i : ℕ) → i < 2 → sent order i ≡ true
below_two i l = ground arith

upload-reassembles_example :
    let u =
      start_and_upload disk
        (codes "id")
        (codes "a.mp4")
        (codes "video/mp4")
        size
        none
        5
        two_chunks
        order
        empty_uploads in
    IsStored disk
      (codes "id")
      (codes "a.mp4")
      (join two_chunks 0 2)
      u
      (complete_upload disk (codes "id") u)
upload-reassembles_example =
    upload-reassembles disk (codes "id") (codes "a.mp4") (codes "video/mp4") size none 5 two_chunks
      order empty_uploads refl (λ i. refl) refl (omega arith, (omega arith, (omega arith, tt)))
      below_two

upload-incomplete_example :
    let u =
      start_and_upload disk
        (codes "id")
        (codes "a.mp4")
        (codes "video/mp4")
        size
        none
        5
        two_chunks
        ((1, 10) ∷ [])
        empty_uploads in
    complete_upload disk (codes "id") u ≡ (u, throw (app_error bad_request))
upload-incomplete_example =
    upload-incomplete disk (codes "id") (codes "a.mp4") (codes "video/mp4") size none 5 two_chunks
      ((1, 10) ∷ []) empty_uploads 0 refl (λ i. refl) (omega arith, tt) (omega arith) refl

failed_retry-IsStored_example :
    let u =
      start_and_upload disk
        (codes "id")
        (codes "a.mp4")
        (codes "video/mp4")
        size
        none
        5
        two_chunks
        order
        empty_uploads in
    let again = upload_chunk full_disk (codes "id") (index 1) (two_chunks 1) 40 u in
    (again.1 ≡ throw foreign)
    × IsStored disk
        (codes "id")
        (codes "a.mp4")
        (join (with_chunk 1 [] two_chunks) 0 2)
        again.0
        (complete_upload disk (codes "id") again.0)
failed_retry-IsStored_example =
    failed_retry-IsStored disk full_disk (codes "id") (codes "a.mp4") (codes "video/mp4") size none
      5 40 two_chunks order empty_uploads 1 refl (λ i. refl) refl
      (omega arith, (omega arith, (omega arith, tt))) below_two (omega arith) refl refl

abbrev idle : UploadSession
idle = record {
  s3_upload_id = none;
  s3_key = none;
  original_filename = codes "a.mp4";
  mime_type = codes "video/mp4";
  total_size = 10;
  total_chunks = 1;
  chunk_size = 10;
  received_chunks = [];
  local_chunk_dir = some (codes "temp");
  folder_id = none;
  created_at = 0;
  last_activity = 0;
}

abbrev two_sessions : Uploads
two_sessions = record empty_uploads {
  sessions = (codes "a", idle) ∷ (codes "b", record idle { last_activity = 9000 }) ∷ [];
}

cleanup_stale_sessions-get_example :
    get (codes "a") (cleanup_stale_sessions disk 10000 3600 two_sessions).sessions
    ≡ keep_fresh 10000 3600 (get (codes "a") two_sessions.sessions)
unfolding has text_beq
cleanup_stale_sessions-get_example =
    cleanup_stale_sessions-get disk 10000 3600 (codes "a") two_sessions (refl, (refl, tt))
