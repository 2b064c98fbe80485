-- ===== src/Client/Cache.antt =====
-- src/client/cache.rs: the cache of sessions, a file for each. The file system and `serde_json` are not
-- this repository's code: their answers are arguments. The files are a map by session id, since a
-- file's name is made of the id alone.
use neosh.Prelude.{
  ◌==◌, if◌then◌else◌, ==_refl, take, Result, ok, err, map_err, Text, Bytes, codes, Uuid, insert, ℕ,
  ◌≡◌, refl, ◌≢◌, Option, none, some, ◌++◌, arith,
}
use neosh.Client.Reconnect.{SessionCacheEntry}

pub data CacheError : Type 0 where
  io json : Text → CacheError

-- The `#[error(…)]` texts.
unfoldable pub to_string : CacheError → Text
to_string (io e) = codes "io error: " ++ e
to_string (json e) = codes "json error: " ++ e

abbrev pub Files : Type 0
Files = Uuid → Option Bytes

-- The files without one.
abbrev pub remove : Uuid → Files → Files
remove id files j = if id == j then none else files j

-- `to_vec_pretty` and `from_slice`.
pub record Serde : Type 0 where
  pub to_vec_pretty : SessionCacheEntry → Result Text Bytes
  pub from_slice : Bytes → Result Text SessionCacheEntry

-- The answers to `create_dir_all` and `write`; a write that fails leaves a file of the bytes it got to.
pub data Written : Type 0 where
  complete : Written
  failed : Option ℕ → Text → Written

abbrev pub write : Written → Files → Uuid → Bytes → Files × Result Text (Unit {0})
write complete files id content = (insert id content files, ok tt)
write (failed none e) files id content = (files, err e)
write (failed (some k) e) files id content = (insert id (take k content) files, err e)

module _ (serde : Serde) where
  unfoldable pub put :
      Result Text (Unit {0})
      → Written
      → Files
      → SessionCacheEntry
      → Files × Result CacheError (Unit {0})
  put dir answer files entry = elim dir [
    | err e ↦ (files, err (io e))
    | ok _ ↦ elim (serde.to_vec_pretty entry) [
      | err e ↦ (files, err (json e))
      | ok content ↦
          let written = write answer files entry.session_id content in
          (written.0, map_err io written.1)
    ]
  ]

  -- `missing` is the text of the error of a read of no file.
  unfoldable pub get : Text → Files → Uuid → Result CacheError SessionCacheEntry
  get missing files session_id = elim (files session_id) [
    | none ↦ err (io missing)
    | some content ↦ map_err json (serde.from_slice content)
  ]

-- The answer to `remove_file`.
unfoldable pub delete : Result Text (Unit {0}) → Files → Uuid → Files × Result CacheError (Unit {0})
delete removed files session_id = elim (files session_id) [
  | none ↦ (files, ok tt)
  | some _ ↦ elim removed [ err e ↦ (files, err (io e)) | ok _ ↦ (remove session_id files, ok tt) ]
]

put-written :
    (serde : Serde) (files : Files) (entry : SessionCacheEntry) (content : Bytes)
    → serde.to_vec_pretty entry ≡ ok content
    → put serde (ok tt) complete files entry ≡ (insert entry.session_id content files, ok tt)
unfolding put
put-written serde files entry content wrote = rw (wrote, put) refl

get-insert :
    (serde : Serde) (missing : Text) (files : Files) (id : Uuid) (entry : SessionCacheEntry)
    (content : Bytes)
    → serde.from_slice content ≡ ok entry
    → get serde missing (insert id content files) id ≡ ok entry
unfolding get
get-insert serde missing files id entry content read = rw (==_refl id, read, get) refl

delete-insert :
    (files : Files) (id : Uuid) (content : Bytes)
    → delete (ok tt) (insert id content files) id ≡ (remove id (insert id content files), ok tt)
unfolding delete
delete-insert files id content = rw (==_refl id, delete) refl

get-remove :
    (serde : Serde) (missing : Text) (files : Files) (id : Uuid)
    → get serde missing (remove id files) id ≡ err (io missing)
unfolding get
get-remove serde missing files id = rw (==_refl id, get) refl

insert_other :
    (files : Files) (id j : Uuid) (content : Bytes) → j ≢ id → insert id content files j ≡ files j
insert_other files id j content other = ground (arith, other)

remove-insert_other :
    (files : Files) (id j : Uuid) (content : Bytes)
    → j ≢ id
    → remove id (insert id content files) j ≡ files j
remove-insert_other files id j content other = ground (arith, other)

-- With files that are written whole and removed, and an entry that is read back as it was written:
-- `get` finds the entry after `put`, and nothing after `delete`, and the file of another session
-- does not change.
pub delete-put :
    (serde : Serde) (missing : Text) (files : Files) (entry : SessionCacheEntry) (content : Bytes)
    (other : Uuid)
    → serde.to_vec_pretty entry ≡ ok content
    → serde.from_slice content ≡ ok entry
    → other ≢ entry.session_id
    → let p = put serde (ok tt) complete files entry in
      let d = delete (ok tt) p.0 entry.session_id in
      (p.1 ≡ ok tt)
      × (get serde missing p.0 entry.session_id ≡ ok entry)
      × (d.1 ≡ ok tt)
      × (get serde missing d.0 entry.session_id ≡ err (io missing))
      × (p.0 other ≡ files other)
      × (d.0 other ≡ files other)
delete-put serde missing files entry content other wrote read differs =
    let id = entry.session_id in
    let stored = insert id content files in
    rw (put-written serde files entry content wrote) (
      rw (delete-insert files id content) (
        refl,
        get-insert serde missing files id entry content read,
        refl,
        get-remove serde missing stored id,
        insert_other files id other content differs,
        remove-insert_other files id other content differs,
      ))
