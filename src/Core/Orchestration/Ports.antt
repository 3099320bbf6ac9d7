-- ===== src/Core/Orchestration/Ports.antt =====
-- The ports of the worker slots, and the port in an address.
use tls_interop_framework.Prelude.{
  [], all, arith, false, refl, some, suc, true, zero, ℕ, ◌++◌, ◌+◌, ◌<◌, ◌∷◌, ◌≡◌, ◌≤◌,
}
use tls_interop_framework.Core.Orchestration.{
  grpc_host, grpc_port, rpartition, slot_tls_port, with_port_override, worker_port_stride,
}
use tls_interop_framework.Python.Args.{is_digit}
use tls_interop_framework.Python.Args.Decimal.{
  AllDigits, decimal-AllDigits, decimal-nonempty, int_of_text-decimal,
}
use tls_interop_framework.Python.Json.{decimal}
use tls_interop_framework.Python.Result.{ok}
use tls_interop_framework.Python.Text.{Text, has_char}

-- Two TLS ports whose base ports are less than a slot's stride apart are equal only for the same
-- slot and the same base port.
pub slot_tls_port-distinct :
    (p q i j : ℕ)
    → p < q + worker_port_stride
    → q < p + worker_port_stride
    → slot_tls_port p (some i) ≡ slot_tls_port q (some j)
    → (i ≡ j) × (p ≡ q)
unfolding slot_tls_port
slot_tls_port-distinct p q i j h k e = (omega arith, omega arith)

digits_no_colon : (s : Text) → AllDigits s → has_char b':' s ≡ false
unfolding has_char is_digit
digits_no_colon [] h = refl
digits_no_colon (c ∷ s) h = ground (arith, h.0, digits_no_colon s h.1)

has_char-append : (h t : Text) → has_char b':' (h ++ b':' ∷ t) ≡ true
unfolding has_char
has_char-append [] t = refl
has_char-append (c ∷ h) t = ground (arith, has_char-append h t)

rpartition-append : (h t : Text) → has_char b':' t ≡ false → rpartition (h ++ b':' ∷ t) ≡ (h, t)
unfolding rpartition
rpartition-append [] t n = rw n refl
rpartition-append (c ∷ h) t n = rw (has_char-append h t) (rw (rpartition-append h t n) refl)

all_digits : (s : Text) → AllDigits s → all is_digit s ≡ true
all_digits [] h = refl
all_digits (c ∷ s) h = ground (arith, h.0, all_digits s h.1)

-- An address whose port is overridden by a port that is not 0 has that port.
pub grpc_port-with_port_override :
    (addr : Text) (p : ℕ) → 1 ≤ p → grpc_port (with_port_override addr (some p)) ≡ ok p
unfolding with_port_override grpc_port
grpc_port-with_port_override addr zero h = absurd (omega arith)
grpc_port-with_port_override addr (suc p) h =
    rw
      (rpartition-append (grpc_host addr) (decimal (suc p))
        (digits_no_colon (decimal (suc p)) (decimal-AllDigits (suc p))))
      (rw (decimal-nonempty (suc p)) (
        rw (all_digits (decimal (suc p)) (decimal-AllDigits (suc p)))
          (rw (int_of_text-decimal (suc p)) refl)))
