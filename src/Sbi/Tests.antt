-- ===== src/Sbi/Tests.antt =====
-- The guest asks for a timer event.
use dc34_baonix.Base.{◌≡◌, [], update, arith}
use dc34_baonix.Backing.{FakeBacking, fake_backing, ram_base}
use dc34_baonix.Cache.{no_stats}
use dc34_baonix.Uart.{VecSink, vec_sink}
use dc34_baonix.Bus
use dc34_baonix.Cpu.{Machine, new, reg}
use dc34_baonix.Sbi.{handle, ext_timer_v02}
use dc34_baonix.Sbi.Convention.{handle-reg}

abbrev asking : Machine FakeBacking VecSink
asking = record {
  cpu = record (new ram_base) { regs = update (update (λ _. 0) 17 ext_timer_v02) 10 1000 };
  bus =
      Bus.new
        (record {
          backing = record { pages = [] };
          frames = [];
          slot_of = λ _. 0;
          hand = 0;
          capacity = 1;
          stats = no_stats;
        })
        (record { bytes = [] });
}

handle-reg_example :
    (reg (handle asking).1.cpu 17 ≡ reg asking.cpu 17)
    × ((handle asking).1.cpu.pc ≡ asking.cpu.pc)
    × ((handle asking).1.cpu.priv ≡ asking.cpu.priv)
    × ((handle asking).1.cpu.reservation ≡ asking.cpu.reservation)
handle-reg_example = handle-reg asking 17 (λ e. ground arith) (λ e. ground arith)
