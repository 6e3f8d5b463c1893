-- ===== src/Driver/Submit/Tests.antt =====
-- Requests of a driver that keeps the list of what it appends.
use softgpu.Base.{ℕ, ◌+◌, ◌*◌, ◌^◌, ◌≡◌, refl, List, [], ◌∷◌, ◌++◌, length, true, false, All, arith}
use softgpu.Errno.{ok}
use softgpu.Device.{Command}
use softgpu.Abi.{SubmitArgs}
use softgpu.Driver.Staging.{Fence}
use softgpu.Driver.Submit.{Parts, do_submit, copy_h2d}
use softgpu.OrderedMap.{before_upper}
use softgpu.Driver.Fences.{sticky}
use softgpu.Driver.Release.{owns}
use softgpu.Driver.Release.Tests.{Pages, one_block}
use softgpu.Driver.Submit.Ranges.{ranges, do_submit_wraps}
use softgpu.Driver.Submit.Blocks.{View, driver_parts, InBlock, do_submit-InBlock}
use softgpu.Driver.Submit.Chunks.{Covers, logging, unlogged, copy_h2d-Covers}

abbrev first : Fence
first = record { engine = 0; channel = 0; value = 0 }

abbrev listed : Parts (List Command)
listed = record {
  num_engines = 2;
  num_channels = 2;
  chunk = 4096;
  slots = 4;
  sticky = λ d. ok;
  published = λ e c d. length d;
  owns = λ a n d. true;
  pinned = λ a n d. false;
  count_submit = λ d. d;
  count_h2d = λ n d. d;
  count_d2h = λ n d. d;
  count_direct = λ n d. d;
  count_staged = λ n d. d;
  enqueue = λ e c cmd d. (length d + 1, d ++ cmd ∷ []);
  wait_fence = λ f d. (ok, d);
  acquire_slot = λ d. ((1, first), d);
  release_slot = λ s f d. d;
  fill_slot = λ s src n d. d;
  drain_slot = λ s dst n d. d;
  slot_ptr = λ s. 65536 + s * 4096;
}

-- A copy to the device of 10000 bytes, of an opcode.
abbrev copy : ℕ → ℕ → SubmitArgs
copy op engine = record {
  cmd = record {
    opcode = op;
    flags = 0;
    dst = 8192;
    src0 = 8192;
    src1 = 0;
    size = 10000;
    arg0 = 0;
    arg1 = 0;
    arg2 = 0;
    value = 0;
    reserved = 0;
  };
  host_ptr = 4096;
  engine = engine;
  channel = 0;
}

-- Both directions take three chunks.
three_up : length (do_submit listed (copy 2 1) []).2 ≡ 3
unfolding do_submit
three_up = refl

three_down : length (do_submit listed (copy 3 1) []).2 ≡ 3
unfolding do_submit
three_down = refl

copied : (copy_h2d listed (copy 2 1) []).0 ≡ ok
unfolding copy_h2d
copied = refl

copy_h2d-Covers_example :
    let logged = copy_h2d (logging listed) (copy 2 1) ([], []) in
    (unlogged logged ≡ copy_h2d listed (copy 2 1) []) × Covers 4096 8192 10000 logged.2.1
copy_h2d-Covers_example =
    copy_h2d-Covers listed (copy 2 1) [] (omega arith) (omega arith) (omega arith) refl copied

-- A heap with one allocation, and the driver's parts over it; the list stays with the parts.
abbrev over_block : View Pages (List Command)
over_block = record {
  heap = λ d. record one_block { allocs = (8192, record { size = 12288; backing = 0 }) ∷ [] };
  pins = λ d. [];
}

accepted : (do_submit (driver_parts over_block listed) (copy 1 0) []).0 ≡ ok
unfolding do_submit driver_parts sticky owns before_upper
accepted = refl

do_submit-InBlock_example :
    All
      (λ r. InBlock ((8192, record { size = 12288; backing = 0 }) ∷ []) r.0 r.1)
      (ranges (copy 1 0).cmd)
do_submit-InBlock_example =
    do_submit-InBlock over_block listed (copy 1 0) [] (omega arith) (omega arith) (omega arith)
      (omega arith) (omega arith, tt) accepted

abbrev huge : SubmitArgs
huge = record (copy 6 0) {
  cmd = record ((copy 6 0).cmd) { arg0 = 2 ^ 31; arg1 = 2 ^ 31; arg2 = 2 ^ 31 };
}

do_submit_wraps_example : (do_submit listed huge []).0 ≡ ok
do_submit_wraps_example =
    do_submit_wraps listed huge [] refl refl refl refl refl refl refl (omega arith) (omega arith)
      refl (refl, (refl, (refl, tt)))
