-- ===== src/Diag/Pressure.antt =====
-- `Pressure` of src/diag.rs, and the errors of the operating system that it is read from.
use scanr.Common.{ℕ, Option, none, some}
use scanr.Common.Text.{Text, codes}

-- The error numbers that the program names; any other keeps its value.
pub data Errno : Type 0 where
  econnrefused econnreset ehostunreach enetunreach eacces eperm : Errno
  eaddrnotavail eaddrinuse emfile enfile etimedout : Errno
  other_errno : ℕ → Errno

-- `std::io::ErrorKind`, as far as the program tells kinds apart
pub data ErrorKind : Type 0 where
  timed_out would_block unexpected_eof interrupted invalid_data other_kind : ErrorKind

-- `std::io::Error`: `message` is what its `Display` writes
pub record IoError : Type 0 where
  pub raw_os_error : Option Errno
  pub kind : ErrorKind
  pub message : Text

pub data Pressure : Type 0 where
  ephemeral_port_exhaustion file_descriptor_exhaustion proxy_saturation : Pressure

unfoldable pub pressure_of_errno : Option Errno → Option Pressure
pressure_of_errno (some eaddrnotavail) = some ephemeral_port_exhaustion
pressure_of_errno (some eaddrinuse) = some ephemeral_port_exhaustion
pressure_of_errno (some emfile) = some file_descriptor_exhaustion
pressure_of_errno (some enfile) = some file_descriptor_exhaustion
pressure_of_errno _ = none

unfoldable pub from_os_error : IoError → Option Pressure
unfolding pressure_of_errno
from_os_error err = pressure_of_errno err.raw_os_error

unfoldable pub pressure_code : Pressure → Text
pressure_code ephemeral_port_exhaustion = codes "ephemeral_pressure"
pressure_code file_descriptor_exhaustion = codes "fd_pressure"
pressure_code proxy_saturation = codes "proxy_saturation"

unfoldable pub pressure_summary : Pressure → Text
pressure_summary ephemeral_port_exhaustion = codes "local ephemeral ports exhausted"
pressure_summary file_descriptor_exhaustion = codes "out of file descriptors"
pressure_summary proxy_saturation = codes "the proxy stopped accepting connections"
