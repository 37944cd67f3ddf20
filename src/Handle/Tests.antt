-- ===== src/Handle/Tests.antt =====
-- Runs of the handle code at numbers that can be followed in the source.
use pure_simdjson.Prelude.{◌≡◌, refl}
use pure_simdjson.Abi.{ok}
use pure_simdjson.Handle.{next_parser_generation, next_doc_generation, pack_handle, unpack_handle}

wraps_to_odd : next_parser_generation 0xffff_ffff ≡ 1
unfolding next_parser_generation
wraps_to_odd = refl

wraps_past_zero : next_doc_generation 0xffff_fffe ≡ 2
unfolding next_doc_generation
wraps_past_zero = refl

packs : pack_handle 3 5 ≡ 0x5_0000_0003
unfolding pack_handle
packs = refl

unpacks : unpack_handle 0x5_0000_0003 ≡ ok (2, 3, 5)
unfolding unpack_handle
unpacks = refl
