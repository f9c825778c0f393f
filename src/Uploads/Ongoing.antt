-- ===== src/Uploads/Ongoing.antt =====
-- server/src/services/chunked-upload.service.ts on the disk: what holds of a session and its chunk
-- directory while chunks arrive.

use montr.Base.{
  ℕ, zero, suc, ◌+◌, ◌*◌, ◌<◌, ◌≤◌, Text, Bool, true, false, ◌||◌, ◌≡◌, refl, arith, nat_eq,
  text_eq, Option, none, some, List, [], ◌∷◌, ◌++◌, length, All, ltb, ◌==◌, eqb_iff, ap, ◌∙◌,
}
use montr.Base.Map.{Map, get, set, has, Distinct, get-set, get-set_self, has-set, Distinct-set}
use montr.Uploads.Sessions.{
  Bytes, on_disk, index, ChunkInfo, UploadSession, Uploads, Environment, or_empty, note_chunk,
  get_session, init_upload, upload_chunk, chunk_dir_of, ceil_div,
}
use montr.Uploads.Completion.{concat_chunks}
use montr.Uploads.Pigeonhole.{KeysBelow, has_all}

-- The chunks `i`, …, `i + n - 1` of a file, one after the other.
pub join : (ℕ → Bytes) → ℕ → ℕ → Bytes
join file i zero = []
join file i (suc n) = file i ++ join file (i + 1) n

-- The upload's session is on disk and complete up to the chunks that are missing: what it has noted is
-- in range, and stands in the chunk directory as the file has it.
pub record Holds (file : ℕ → Bytes) (dir : Text) (session : UploadSession) (chunks : Map ℕ Bytes)
    : Type 0 where
  pub in_dir : session.local_chunk_dir ≡ some dir
  pub distinct : Distinct session.received_chunks
  pub below : KeysBelow session.total_chunks session.received_chunks
  pub stored : (i : ℕ) → has i session.received_chunks ≡ true → get i chunks ≡ some (file i)

pub Holds-note :
    (file : ℕ → Bytes) (dir : Text) (session : UploadSession) (chunks : Map ℕ Bytes) (i : ℕ)
    (info : ChunkInfo) (now : ℕ)
    → i < session.total_chunks
    → Holds file dir session chunks
    → Holds file dir (note_chunk i info now session) (set i (file i) chunks)
Holds-note file dir session chunks i info now l h = record {
  in_dir = h.in_dir;
  distinct = Distinct-set i info session.received_chunks h.distinct;
  below =
      λ j p. ground (arith, has-set i j info session.received_chunks, eqb_iff i j, h.below j, l);
  stored = λ j p. ground (
    arith,
    has-set i j info session.received_chunks,
    eqb_iff i j,
    h.stored j,
    get-set i j (file i) chunks,
    ap file {x = i} {y = j},
  );
}

pub concat_chunks-join :
    (file : ℕ → Bytes) (i n : ℕ) (chunks : Map ℕ Bytes)
    → ((j : ℕ) → i ≤ j → j < i + n → get j chunks ≡ some (file j))
    → concat_chunks i n chunks ≡ some (join file i n)
unfolding concat_chunks join
concat_chunks-join file i zero chunks h = refl
concat_chunks-join file i (suc n) chunks h =
    let rest =
      concat_chunks-join file (i + 1) n chunks
        (λ j p q. h j (omega (arith, p)) (omega (arith, q))) in
    rw (concat_chunks, h i (omega arith) (omega arith), rest) refl

-- With every chunk there, the chunk files give the file.
pub Holds-concat :
    (file : ℕ → Bytes) (dir : Text) (session : UploadSession) (chunks : Map ℕ Bytes)
    → Holds file dir session chunks
    → length session.received_chunks ≡ session.total_chunks
    → concat_chunks 0 session.total_chunks chunks ≡ some (join file 0 session.total_chunks)
Holds-concat file dir session chunks h full =
    concat_chunks-join file 0 session.total_chunks chunks (λ j p q. h.stored j (
      has_all session.total_chunks session.received_chunks h.distinct h.below full j
        (omega (arith, q))))

-- The session of an upload to the disk, the chunks it has noted, and what `Holds` says of it.
pub record Ongoing (upload_id dir name : Text) (total : ℕ) (file : ℕ → Bytes) (got : ℕ → Bool)
    (u : Uploads) : Type 0 where
  pub session : UploadSession
  pub found : get upload_id u.sessions ≡ some session
  pub named : session.original_filename ≡ name
  pub total_chunks : session.total_chunks ≡ total
  pub holds : Holds file dir session (or_empty (get dir u.chunk_dirs))
  pub received : (i : ℕ) → has i session.received_chunks ≡ got i

-- The indices of a list.
abbrev pub sent : List (ℕ × ℕ) → ℕ → Bool
sent [] j = false
sent ((i, now) ∷ order) j = i == j || sent order j

module _ (env : Environment) where
  pub upload_chunk-on_disk :
      (upload_id dir name : Text) (total : ℕ) (file : ℕ → Bytes) (got : ℕ → Bool) (i now : ℕ)
      (u : Uploads)
      → env.backend ≡ on_disk
      → env.write_ok dir i (file i) ≡ true
      → i < total
      → Ongoing upload_id dir name total file got u
      → Ongoing upload_id dir name total file
          (λ j. i == j || got j)
          (upload_chunk env upload_id (index i) (file i) now u).0
  unfolding upload_chunk get_session
  upload_chunk-on_disk upload_id dir name total file got i now u b w l h =
      let s = h.session in
      let info : ChunkInfo = record { etag = none; size = length (file i) } in
      let lt : ltb i s.total_chunks ≡ true = ground (arith, l, h.total_chunks) in
      rw (h.found, lt, b, h.holds.in_dir, w)
        (record {
          session = note_chunk i info now s;
          found = get-set_self upload_id (note_chunk i info now s) u.sessions;
          named = h.named;
          total_chunks = h.total_chunks;
          holds =
              rw (get-set_self dir (set i (file i) (or_empty (get dir u.chunk_dirs))) u.chunk_dirs)
                (Holds-note file dir s (or_empty (get dir u.chunk_dirs)) i info now
                  (ground (arith, l, h.total_chunks)) h.holds);
          received = λ j. has-set i j info s.received_chunks ∙ ap (λ r. i == j || r) (h.received j);
        })

  -- The file's chunks are sent in the order of a list, each at its time.
  pub upload_each : Text → (ℕ → Bytes) → List (ℕ × ℕ) → Uploads → Uploads
  upload_each upload_id file [] u = u
  upload_each upload_id file ((i, now) ∷ order) u =
      upload_each upload_id file order (upload_chunk env upload_id (index i) (file i) now u).0

  pub Ongoing-cong :
      (upload_id dir name : Text) (total : ℕ) (file : ℕ → Bytes) (got got' : ℕ → Bool) (u : Uploads)
      → ((j : ℕ) → got j ≡ got' j)
      → Ongoing upload_id dir name total file got u
      → Ongoing upload_id dir name total file got' u
  Ongoing-cong upload_id dir name total file got got' u e h = record {
    session = h.session;
    found = h.found;
    named = h.named;
    total_chunks = h.total_chunks;
    holds = h.holds;
    received = λ i. h.received i ∙ e i;
  }

  pub upload_each-Ongoing :
      (upload_id dir name : Text) (total : ℕ) (file : ℕ → Bytes) (order : List (ℕ × ℕ))
      (got : ℕ → Bool) (u : Uploads)
      → env.backend ≡ on_disk
      → ((i : ℕ) → env.write_ok dir i (file i) ≡ true)
      → All (λ c. c.0 < total) order
      → Ongoing upload_id dir name total file got u
      → Ongoing upload_id dir name total file
          (λ j. sent order j || got j)
          (upload_each upload_id file order u)
  unfolding upload_each
  upload_each-Ongoing upload_id dir name total file [] got u b w a h = h
  upload_each-Ongoing upload_id dir name total file ((i, now) ∷ order) got u b w a h =
      let one = upload_chunk-on_disk upload_id dir name total file got i now u b (w i) a.0 h in
      let rest =
        upload_each-Ongoing upload_id dir name total file order (λ j. i == j || got j)
          (upload_chunk env upload_id (index i) (file i) now u).0 b w a.1 one in
      Ongoing-cong upload_id dir name total file _ _
        (upload_each upload_id file ((i, now) ∷ order) u) (λ j. ground arith) rest

  pub init_upload-Ongoing :
      (upload_id filename mime : Text) (size : ℕ) (folder : Option ℕ) (now : ℕ) (file : ℕ → Bytes)
      (u : Uploads)
      → env.backend ≡ on_disk
      → Ongoing upload_id
          (chunk_dir_of upload_id)
          filename
          (ceil_div size (env.chunk_size_mb * 1024 * 1024))
          file
          (λ j. false)
          (init_upload env upload_id filename mime size folder now u).0
  unfolding init_upload has
  init_upload-Ongoing upload_id filename mime size folder now file u b = rw b (record {
    session = _;
    found = get-set_self upload_id _ u.sessions;
    named = refl;
    total_chunks = refl;
    holds = record { in_dir = refl; distinct = tt; below = λ i h. cc; stored = λ i h. cc };
    received = λ i. refl;
  })
