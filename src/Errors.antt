-- ===== src/Errors.antt =====
-- src/errors.h and the errors of src/network.h and src/session.h: what the operations return.
use xprc_server_plugin_c.Common.{ℕ}

abbrev pub error_none : ℕ
error_none = 0

abbrev pub error_unspecific : ℕ
error_unspecific = 1

abbrev pub error_memory_allocation : ℕ
error_memory_allocation = 2

abbrev pub error_mutex_failed : ℕ
error_mutex_failed = 3

abbrev pub error_destruction_pending : ℕ
error_destruction_pending = 4

abbrev pub session_error_no_such_channel : ℕ
session_error_no_such_channel = 40

abbrev pub session_error_invalid_channel_state : ℕ
session_error_invalid_channel_state = 41

abbrev pub network_error_shutdown : ℕ
network_error_shutdown = 25

abbrev pub network_error_capacity : ℕ
network_error_capacity = 26

abbrev pub error_incomplete : ℕ
error_incomplete = 5
