-- ===== src/Tests/Storage.antt =====
-- The theorems on the threads of the disks, on the sample before its files are written.
use workload.Prelude.{ℕ, ◌≡◌, refl, true, false, ◌==◌}
use workload.Store.Types.{Workload}
use workload.Storage.{LayIo, failed, start_disks}
use workload.Storage.Walk.{IsGood}
use workload.Storage.Errors.{start_disks-failed}
use workload.Tests.Sample.{sample}

-- The sample without its accesses.
abbrev unwritten : Workload
unwritten = record sample {
  read_count = 0;
  write_count = 0;
  file = λ x. record (sample.file x) { read_count = 0; write_count = 0 };
}

-- Threads that nothing fails.
abbrev pub threads : ℕ → LayIo
threads d = record { path = true; broken = λ f. false; pathname = λ f. true; opened = λ f. true }

pub threads-IsGood : (d : ℕ) → IsGood (threads d)
threads-IsGood d = record {
  path = refl;
  unbroken = λ f. refl;
  pathname = λ f. refl;
  opened = λ f. refl;
}

-- The path of the first disk cannot be made.
abbrev lost : ℕ → LayIo
lost d = record (threads d) { path = d == 1 }

start_disks-failed_example : (start_disks lost unwritten).0 ≡ failed
start_disks-failed_example = start_disks-failed lost 0 unwritten refl refl
