-- ===== src/Nasshp/Buffer.antt =====
-- The buffers of proxy/nasshp/window.go, and the lists of them that a blist holds. The sentinel of
-- a blist is a buffer with no data and no capacity, which is how an empty list behaves below.
use enkit.Common.{
  ℕ, ◌+◌, ◌-◌, Option, none, some, List, [], ◌∷◌, ◌++◌, length, drop, if◌then◌else◌, ltb, leb,
}

-- `data` up to its length; its capacity is that of the pool's buffers.
pub record Buffer : Type 0 where
  pub bytes : List ℕ
  pub offset : ℕ
  pub acknowledged : ℕ

-- What BufferPool.Get returns, a new buffer or one that Put has reset.
abbrev pub fresh : Buffer
fresh = record { bytes = []; offset = 0; acknowledged = 0 }

-- The length of the slice that ToFill returns, and the list with the buffer that it belongs to.
unfoldable pub room : ℕ → List Buffer → List Buffer × ℕ
room size [] = (fresh ∷ [], size)
room size (x ∷ []) =
    if ltb (length x.bytes) size then (x ∷ [], size - length x.bytes) else (x ∷ fresh ∷ [], size)
room size (x ∷ y ∷ r) = let rest = room size (y ∷ r) in (x ∷ rest.0, rest.1)

-- The last buffer, grown by bytes that were copied behind its data. Go panics, `none`, if they do
-- not fit.
unfoldable pub grow : ℕ → List ℕ → List Buffer → Option (List Buffer)
grow size new [] = if leb (length new) 0 then some [] else none
grow size new (x ∷ []) =
    if leb (length x.bytes + length new) size
    then some (record x { bytes = x.bytes ++ new } ∷ [])
    else none
grow size new (x ∷ y ∷ r) = elim (grow size new (y ∷ r)) [ none ↦ none | some s ↦ some (x ∷ s) ]

-- `first.data[first.offset:]`
unfoldable pub pending_bytes : Buffer → List ℕ
pending_bytes x = drop x.offset x.bytes
