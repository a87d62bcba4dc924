-- ===== src/Vm/Swap/Tests.antt =====
-- A trip to the swap area and back, with files as POSIX has them.
use osproject.Base.{ℕ, ◌+◌, ◌≡◌, refl, ap, ◌∙◌, List, [], length, get_or, max, arith}
use osproject.Vm.State.{copy_in}
use osproject.Vm.Swap.RoundTrip.{
  SwapsBack, get_or-bytes_from, bytes_from-of_get_or, copy_in-at, write_into_swap-read_from_swap,
}
use osproject.Vm.Tests.{byte_host, full, full-Inv, full-space}

byte_host-read_write :
    (file : List ℕ) (offset : ℕ) (bytes : List ℕ)
    → byte_host.read_at (byte_host.write_at file offset bytes) offset (length bytes) ≡ bytes
byte_host-read_write file offset bytes = bytes_from-of_get_or _ offset bytes (λ i h.
    get_or-bytes_from (copy_in (λ j. get_or file j 0) offset bytes) 0
      (max (length file) (offset + length bytes)) (offset + i) (ground arith)
    ∙ ap (copy_in (λ j. get_or file j 0) offset bytes) (omega arith)
    ∙ copy_in-at (λ j. get_or file j 0) offset i bytes h)

write_into_swap-read_from_swap_example :
    SwapsBack byte_host full (record { space = 0; page = 0 }) 0 3
write_into_swap-read_from_swap_example =
    write_into_swap-read_from_swap byte_host byte_host-read_write full
      (record { space = 0; page = 0 }) 0 3 [] full-Inv.mem_valid refl full-Inv.swap_valid refl
      (omega arith) (omega arith) refl refl (omega arith) refl full-space
