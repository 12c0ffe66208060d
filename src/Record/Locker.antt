-- ===== src/Record/Locker.antt =====
-- internal/record/locker.go: a member's own, erasable store of contents.
use cloudy.Prelude.{◌==◌, if◌then◌else◌, ◌≡◌, arith, [], Option, none, some}
use cloudy.Prelude.Dict.{Dict, lookup, insert, delete, lookup-insert, lookup-delete}
use cloudy.Prelude.Bytes.{Bytes}
use cloudy.Primitives.{Hash, Primitives}
use cloudy.Record.Entry.{hash_content}

-- memLocker.m
abbrev pub Locker : Type 0
Locker = Dict Bytes

unfoldable pub new_mem_locker : Locker
new_mem_locker = []

-- memLocker.Get
unfoldable pub get_content : Hash → Locker → Option Bytes
get_content h l = lookup h l

-- memLocker.Erase
unfoldable pub erase : Hash → Locker → Locker
erase h l = delete h l

module _ (p : Primitives) where
  -- memLocker.Put: the hash and the locker.
  unfoldable pub put : Bytes → Locker → Hash × Locker
  put content l = let h = hash_content p content in (h, insert h content l)

  -- After Put, Get returns the content under the hash that Put returned, and what it did before under any other
  -- hash. After the erasure of that hash, Get returns nothing under it, and what it did before under any other.
  put-erase :
      (content : Bytes) (l : Locker) (h : Hash)
      → let (key, held) = put content l in
        (get_content h held ≡ (if key == h then some content else get_content h l))
        × (get_content h (erase key held) ≡ (if key == h then none else get_content h l))
  unfolding put get_content erase
  put-erase content l h =
      let key = hash_content p content in
      let write = lookup-insert key h content l in
      (write, ground (arith, write, lookup-delete key h (insert key content l)))
