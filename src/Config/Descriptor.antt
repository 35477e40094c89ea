-- ===== src/Config/Descriptor.antt =====
-- The descriptors of lib/config: what names an entry of a store.
use enkit.Common.{Option, List, [], ◌∷◌}
use enkit.Config.Text.{Text}

-- A plain Key, a formatHintDescriptor, a multiDescriptor, whose marshaller may be nil, and a
-- namespaceDescriptor.
pub data Descriptor {ℓ} (M : Type ℓ) : Type ℓ where
  plain : Text → Descriptor M
  hinted : Text → Text → Descriptor M
  multi : Option M → Text → Descriptor M
  namespace : Text → List Text → Descriptor M

-- Key.
unfoldable pub key_of {ℓ} : {M : Type ℓ} → Descriptor M → Text
key_of (plain k) = k
key_of (hinted k format) = k
key_of (multi m k) = k
key_of (namespace name path) = name

-- RequestedFormatKey.
unfoldable pub requested_format_key {ℓ} : {M : Type ℓ} → Text → Text → Descriptor M
requested_format_key key [] = plain key
requested_format_key key (c ∷ format) = hinted key (c ∷ format)
