-- ===== src/Uploads/Retry.antt =====
-- server/src/services/chunked-upload.service.ts on the disk: a chunk that is sent again and whose
-- write fails is still counted as received.
use montr.Base.{
  ℕ, ◌<◌, Text, Bool, true, false, ◌≡◌, refl, arith, nat_eq, text_eq, Option, List, All, ltb, ◌==◌,
  if◌then◌else◌, throw, foreign,
}
use montr.Base.Map.{get, set, get-set, get-set_self}
use montr.Uploads.Sessions.{
  Bytes, on_disk, index, Uploads, Environment, or_empty, get_session, upload_chunk, chunk_dir_of,
}
use montr.Uploads.Completion.{complete_upload}
use montr.Uploads.Ongoing.{join, Ongoing, sent, upload_each-Ongoing, init_upload-Ongoing}
use montr.Uploads.Reassembly.{
  media_path, chunks_of, start_and_upload, IsStored, complete_upload-full,
}

-- A file with another chunk at `i`.
abbrev pub with_chunk : ℕ → Bytes → (ℕ → Bytes) → ℕ → Bytes
with_chunk i bytes file j = if i == j then bytes else file j

-- The write of a chunk fails: the call throws, and what the write left stands in the chunk's place.
upload_chunk-failed :
    (env : Environment) (upload_id dir name : Text) (total : ℕ) (file : ℕ → Bytes) (got : ℕ → Bool)
    (i : ℕ) (bytes : Bytes) (now : ℕ) (u : Uploads)
    → env.backend ≡ on_disk
    → env.write_ok dir i bytes ≡ false
    → i < total
    → Ongoing upload_id dir name total file got u
    → ((upload_chunk env upload_id (index i) bytes now u).1 ≡ throw foreign)
      × Ongoing upload_id dir name total
          (with_chunk i (env.partial dir i bytes) file)
          got
          (upload_chunk env upload_id (index i) bytes now u).0
unfolding upload_chunk get_session
upload_chunk-failed env upload_id dir name total file got i bytes now u b w l h =
    let s = h.session in
    let p = env.partial dir i bytes in
    let lt : ltb i s.total_chunks ≡ true = ground (arith, l, h.total_chunks) in
    rw (h.found, lt, b, h.holds.in_dir, w)
      (
        refl,
        record {
          session = s;
          found = h.found;
          named = h.named;
          total_chunks = h.total_chunks;
          received = h.received;
          holds =
              rw (get-set_self dir (set i p (or_empty (get dir u.chunk_dirs))) u.chunk_dirs)
                (record {
                  in_dir = h.holds.in_dir;
                  distinct = h.holds.distinct;
                  below = h.holds.below;
                  stored = λ j e.
                      ground (
                        arith,
                        get-set i j p (or_empty (get dir u.chunk_dirs)),
                        h.holds.stored j e,
                      );
                });
        },
      )

-- After every chunk of a file was uploaded to the disk, a chunk is sent again and its write fails. The
-- call throws, and yet completing the upload succeeds: it stores the file with what the failed write
-- left in the place of that chunk.
pub failed_retry-IsStored :
    (env retry : Environment) (upload_id filename mime : Text) (size : ℕ) (folder : Option ℕ)
    (now later : ℕ) (file : ℕ → Bytes) (order : List (ℕ × ℕ)) (u : Uploads) (i : ℕ)
    → env.backend ≡ on_disk
    → ((j : ℕ) → env.write_ok (chunk_dir_of upload_id) j (file j) ≡ true)
    → env.write_media_ok (media_path env filename) ≡ true
    → All (λ c. c.0 < chunks_of env size) order
    → ((j : ℕ) → j < chunks_of env size → sent order j ≡ true)
    → i < chunks_of env size
    → retry.backend ≡ on_disk
    → retry.write_ok (chunk_dir_of upload_id) i (file i) ≡ false
    → let sent_all = start_and_upload env upload_id filename mime size folder now file order u in
      let again = upload_chunk retry upload_id (index i) (file i) later sent_all in
      (again.1 ≡ throw foreign)
      × IsStored env upload_id filename
          (join
            (with_chunk i (retry.partial (chunk_dir_of upload_id) i (file i)) file)
            0
            (chunks_of env size))
          again.0
          (complete_upload env upload_id again.0)
failed_retry-IsStored env retry upload_id filename mime size folder now later file order u i b w v a
      full l rb rw' =
    let start = init_upload-Ongoing env upload_id filename mime size folder now file u b in
    let ready =
      upload_each-Ongoing env upload_id _ filename _ file order (λ j. false) _ b w a start in
    let failed =
      upload_chunk-failed retry upload_id _ filename _ file _ i (file i) later _ rb rw' l ready in
    (
      failed.0,
      complete_upload-full env upload_id _ filename _ _ _ _ b failed.1 v
          (λ j lt. ground (arith, full j lt)),
    )
