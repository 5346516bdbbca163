-- ===== src/Encoding/Table.antt =====
-- The encodings that unc0_adddefaultencs of src/utxt.c registers.
use uncil.Prelude.{ℕ, List, Option, some}
use uncil.Encoding.{
  Sink, Run, utf16le_dec, utf16be_dec, utf32le_dec, utf32be_dec, ascii_dec, latin1_dec,
}
use uncil.Encoding.Encode.{
  encode, utf16_units, utf32_units, byte_units, u16le, u16be, u32le, u32be, utf8ts, passthru,
}

pub data Encoding : Type 0 where
  utf8 utf16le utf16be utf32le utf32be ascii latin1 : Encoding

module _ {σ : Type 0} (out : Sink σ) where
  unfoldable pub enc : Encoding → List ℕ → σ → Option (Run σ)
  enc utf8 s st = some (passthru out s st)
  enc utf16le s st = encode out (utf16_units u16le) s st
  enc utf16be s st = encode out (utf16_units u16be) s st
  enc utf32le s st = encode out (utf32_units u32le) s st
  enc utf32be s st = encode out (utf32_units u32be) s st
  enc ascii s st = encode out (byte_units 0x80) s st
  enc latin1 s st = encode out (byte_units 0x100) s st

  unfoldable pub dec : Encoding → ℕ → List ℕ → σ → Option (Run σ)
  dec utf8 n s st = utf8ts out n s st
  dec utf16le n s st = utf16le_dec out n s st
  dec utf16be n s st = utf16be_dec out n s st
  dec utf32le n s st = utf32le_dec out n s st
  dec utf32be n s st = utf32be_dec out n s st
  dec ascii n s st = some (ascii_dec out n s st)
  dec latin1 n s st = some (latin1_dec out n s st)
