-- ===== src/Uploads/Sessions.antt =====
-- server/src/services/chunked-upload.service.ts, class ChunkedUploadService, for both backends. The
-- disk holds the chunk directories and the finished files; a call takes the time at which it runs.
use montr.Base.{
  ℕ, ◌+◌, ◌-◌, ◌*◌, ◌/◌, Text, Bool, true, false, Option, none, some, List, [], ◌++◌, codes, ltb,
  if◌then◌else◌, text_eq, nat_eq, length, Action, app_error, foreign, bad_request, not_found, ◌>>=◌,
  ◌>>◌, give, fail, reads, writes, require,
}
use montr.Base.Map.{Map, get, set, delete}

abbrev pub Bytes : Type 0
Bytes = List ℕ

pub data Backend : Type 0 where
  spaces on_disk : Backend

pub record ChunkInfo : Type 0 where
  pub etag : Option Text
  pub size : ℕ

pub record UploadSession : Type 0 where
  pub s3_upload_id : Option Text
  pub s3_key : Option Text
  pub original_filename : Text
  pub mime_type : Text
  pub total_size : ℕ
  pub total_chunks : ℕ
  pub chunk_size : ℕ
  pub received_chunks : Map ℕ ChunkInfo
  pub local_chunk_dir : Option Text
  pub folder_id : Option ℕ
  pub created_at : ℕ
  pub last_activity : ℕ

-- The sessions, the chunk directories and the files under `media`.
pub record Uploads : Type 0 where
  pub sessions : Map Text UploadSession
  pub chunk_dirs : Map Text (Map ℕ Bytes)
  pub media : Map Text Bytes

-- The configuration, the storage service with the S3 client behind it, and the file system's writes.
-- `none` and `false` stand for a call that throws; `partial` is what a failed write leaves.
pub record Environment : Type 0 where
  pub backend : Backend
  pub chunk_size_mb : ℕ
  pub unique_filename : Text → Text
  pub init_multipart : Text → Option Text
  pub upload_part : Text → Text → ℕ → Bytes → Option Text
  pub complete_multipart : Text → Text → List (ℕ × Option Text) → Bool
  pub write_ok : Text → ℕ → Bytes → Bool
  pub partial : Text → ℕ → Bytes → Bytes
  pub write_media_ok : Text → Bool
  pub remove_ok : Text → Bool
  pub basename : Text → Text

-- An index as the routes parse it.
pub data ChunkIndex : Type 0 where
  index : ℕ → ChunkIndex
  negative : ℕ → ChunkIndex

-- `chunkIndex < 0 || chunkIndex >= session.totalChunks` is refused.
abbrev pub in_range : ChunkIndex → ℕ → Option ℕ
in_range (negative n) total = none
in_range (index i) total = if ltb i total then some i else none

-- `Math.ceil(totalSize / chunkSize)`
abbrev pub ceil_div : ℕ → ℕ → ℕ
ceil_div n d = (n + (d - 1)) / d

abbrev pub or_empty : Option (Map ℕ Bytes) → Map ℕ Bytes
or_empty none = []
or_empty (some dir) = dir

-- `path.join(…, 'temp', 'chunks_<uploadId>')`
abbrev pub chunk_dir_of : Text → Text
chunk_dir_of upload_id = codes "temp/chunks_" ++ upload_id

unfoldable pub get_session : Text → Action Uploads UploadSession
get_session upload_id = do
  session ← reads (λ u. get upload_id u.sessions)
  require (app_error not_found) session

abbrev pub put_session : Text → UploadSession → Action Uploads (Unit {0})
put_session upload_id session =
    writes (λ u. record u { sessions = set upload_id session u.sessions })

abbrev pub write_chunk : Text → ℕ → Bytes → Action Uploads (Unit {0})
write_chunk dir i bytes = writes (λ u. record u {
  chunk_dirs = set dir (set i bytes (or_empty (get dir u.chunk_dirs))) u.chunk_dirs;
})

abbrev pub unlink_chunk : Text → ℕ → Action Uploads (Unit {0})
unlink_chunk dir i = writes (λ u. record u {
  chunk_dirs = set dir (delete i (or_empty (get dir u.chunk_dirs))) u.chunk_dirs;
})

-- The chunk is noted with its size, and the session was active now.
abbrev pub note_chunk : ℕ → ChunkInfo → ℕ → UploadSession → UploadSession
note_chunk i info now session = record session {
  received_chunks = set i info session.received_chunks;
  last_activity = now;
}

module _ (env : Environment) where
  abbrev pub new_session : Text → Text → ℕ → Option ℕ → ℕ → UploadSession
  new_session filename mime total_size folder now =
      let chunk_size = env.chunk_size_mb * 1024 * 1024 in
      record {
        s3_upload_id = none;
        s3_key = none;
        original_filename = filename;
        mime_type = mime;
        total_size = total_size;
        total_chunks = ceil_div total_size chunk_size;
        chunk_size = chunk_size;
        received_chunks = [];
        local_chunk_dir = none;
        folder_id = folder;
        created_at = now;
        last_activity = now;
      }

  -- `initUpload`; the upload's id is random.
  unfoldable pub init_upload : Text → Text → Text → ℕ → Option ℕ → ℕ → Action Uploads UploadSession
  init_upload upload_id filename mime total_size folder now =
      let fresh = new_session filename mime total_size folder now in
      elim env.backend [
        | spaces ↦ do
          let key = codes "media/" ++ env.unique_filename filename
          s3_id ← require foreign (env.init_multipart key)
          let session : UploadSession = record fresh {
            s3_upload_id = some s3_id;
            s3_key = some key;
          }
          put_session upload_id session
          give session
        | on_disk ↦ do
          let dir = chunk_dir_of upload_id
          let session : UploadSession = record fresh { local_chunk_dir = some dir }
          writes (λ u. record u {
            chunk_dirs = set dir (or_empty (get dir u.chunk_dirs)) u.chunk_dirs;
          })
          put_session upload_id session
          give session
      ]

  abbrev pub progress : UploadSession → ℕ × ℕ
  progress session = (length session.received_chunks, session.total_chunks)

  -- `streamChunkFromRequest`; a write that fails leaves no chunk file.
  unfoldable pub stream_chunk : Text → ChunkIndex → Bytes → ℕ → Action Uploads (ℕ × ℕ)
  unfolding get_session
  stream_chunk upload_id chunk bytes now = do
    session ← get_session upload_id
    i ← require (app_error bad_request) (in_range chunk session.total_chunks)
    dir ← require (app_error bad_request) session.local_chunk_dir
    elim (env.write_ok dir i bytes) [
      | true ↦ do
        write_chunk dir i bytes
        let session' = note_chunk i (record { etag = none; size = length bytes }) now session
        put_session upload_id session'
        give (progress session')
      | false ↦ do unlink_chunk dir i; fail foreign
    ]

  -- `uploadChunk`
  unfoldable pub upload_chunk : Text → ChunkIndex → Bytes → ℕ → Action Uploads (ℕ × ℕ)
  unfolding get_session
  upload_chunk upload_id chunk bytes now = do
    session ← get_session upload_id
    i ← require (app_error bad_request) (in_range chunk session.total_chunks)
    elim env.backend [
      | spaces ↦ do
        key ← require foreign session.s3_key
        s3_id ← require foreign session.s3_upload_id
        etag ← require foreign (env.upload_part key s3_id (i + 1) bytes)
        let session' = note_chunk i (record { etag = some etag; size = length bytes }) now session
        put_session upload_id session'
        give (progress session')
      | on_disk ↦ do
        dir ← require foreign session.local_chunk_dir
        elim (env.write_ok dir i bytes) [
          | true ↦ do
            write_chunk dir i bytes
            let session' = note_chunk i (record { etag = none; size = length bytes }) now session
            put_session upload_id session'
            give (progress session')
          | false ↦ do write_chunk dir i (env.partial dir i bytes); fail foreign
        ]
    ]
