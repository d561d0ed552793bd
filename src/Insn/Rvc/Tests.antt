-- ===== src/Insn/Rvc/Tests.antt =====
-- Compressed instructions.
use dc34_baonix.Base.{◌≡◌, refl, none, some, low_bits}
use dc34_baonix.Insn.Rvc.{expand, quadrant1, quadrant2, i_type, sext_u32, six, moves}
use dc34_baonix.Insn.Rvc.Full.{expand-low_bits}

-- `c.addi x1, 5`, `c.nop` and `c.ebreak`, and a 32-bit instruction.
addi : expand 0x0095 ≡ some 0x0050_8093
unfolding expand quadrant1 i_type sext_u32 six
addi = refl

nop : expand 0x0001 ≡ some 0x0000_0013
unfolding expand quadrant1 i_type sext_u32 six
nop = refl

ebreak : expand 0x9002 ≡ some 0x0010_0073
unfolding expand quadrant2 moves
ebreak = refl

not_compressed : expand 0x0093 ≡ none
unfolding expand
not_compressed = refl

expand-low_bits_example : low_bits 0x0050_8093 2 ≡ 3
expand-low_bits_example = expand-low_bits 0x0095 0x0050_8093 addi
