-- ===== src/Step/Tests.antt =====
-- A hart whose store has no page.
use dc34_baonix.Base.{◌≡◌, refl, ap, [], err}
use dc34_baonix.Backing.{FakeBacking, fake_backing, ram_base}
use dc34_baonix.Cache.{PageCache, no_stats}
use dc34_baonix.Uart.{VecSink, vec_sink}
use dc34_baonix.Bus
use dc34_baonix.Mmu
use dc34_baonix.Csr
use dc34_baonix.Cache.{check_range, resident_slot, with_backing}
use dc34_baonix.Cache.Resident.{resident, place}
use dc34_baonix.Cache.Bytes.{read_le}
use dc34_baonix.Exception.{backing_failure}
use dc34_baonix.Cpu.{Machine, new, fetch, remap_fetch, read_translated, translate}
use dc34_baonix.Step.{step, deliver, step_trapping, fetch_insn}
use dc34_baonix.Step.Failures.{step_trapping-err}

abbrev cache : PageCache FakeBacking
cache = record {
  backing = record { pages = [] };
  frames = [];
  slot_of = λ _. 0;
  hand = 0;
  capacity = 1;
  stats = no_stats;
}

abbrev broken : Machine FakeBacking VecSink
broken = record { cpu = new ram_base; bus = Bus.new cache (record { bytes = [] }) }

step_fails : (step broken).0 ≡ err (backing_failure ram_base)
unfolding step fetch_insn fetch remap_fetch new read_translated translate Mmu.translate Csr.read
    Csr.reset Bus.load Bus.in_ram Bus.legal_size read_le check_range resident resident_slot place
    with_backing
step_fails = refl

step_trapping_fails : (step_trapping broken).0 ≡ err ram_base
unfolding step_trapping deliver
step_trapping_fails = ap (λ q. (deliver (q, (step broken).1)).0) step_fails

step_trapping-err_example : (step broken).0 ≡ err (backing_failure ram_base)
step_trapping-err_example = step_trapping-err broken ram_base step_trapping_fails
