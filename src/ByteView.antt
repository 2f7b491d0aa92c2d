-- ===== src/ByteView.antt =====
-- cache/byteview.go: a read-only view of bytes. A copy of a slice is the same value here, where no
-- value is changed in place.
use go.Common.{ℕ, Bytes, length}
use go.Store.Options.{Value}

pub record ByteView : Type 0 where
  pub b : Bytes

abbrev pub clone_bytes : Bytes → Bytes
clone_bytes b = b

abbrev pub len : ByteView → ℕ
len v = length v.b

abbrev pub byte_slice : ByteView → Bytes
byte_slice v = clone_bytes v.b

instance abbrev pub byte_view_value : Value ByteView
byte_view_value = record { len = len }
