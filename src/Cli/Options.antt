-- ===== src/Cli/Options.antt =====
-- The option strings of src/cli.cpp, as bytes.
use packet_inspector.Base.{[], ◌∷◌, Bytes}

-- -h
abbrev pub flag_h : Bytes
flag_h = 45 ∷ 104 ∷ []

-- --help
abbrev pub flag_help : Bytes
flag_help = 45 ∷ 45 ∷ 104 ∷ 101 ∷ 108 ∷ 112 ∷ []

-- -j
abbrev pub flag_j : Bytes
flag_j = 45 ∷ 106 ∷ []

-- -nfq
abbrev pub flag_nfq : Bytes
flag_nfq = 45 ∷ 110 ∷ 102 ∷ 113 ∷ []

-- -nfq-size
abbrev pub flag_nfq_size : Bytes
flag_nfq_size = 45 ∷ 110 ∷ 102 ∷ 113 ∷ 45 ∷ 115 ∷ 105 ∷ 122 ∷ 101 ∷ []

-- -max-blocked
abbrev pub flag_max_blocked : Bytes
flag_max_blocked = 45 ∷ 109 ∷ 97 ∷ 120 ∷ 45 ∷ 98 ∷ 108 ∷ 111 ∷ 99 ∷ 107 ∷ 101 ∷ 100 ∷ []

-- -pin
abbrev pub flag_pin : Bytes
flag_pin = 45 ∷ 112 ∷ 105 ∷ 110 ∷ []

-- -pin-stride
abbrev pub flag_pin_stride : Bytes
flag_pin_stride = 45 ∷ 112 ∷ 105 ∷ 110 ∷ 45 ∷ 115 ∷ 116 ∷ 114 ∷ 105 ∷ 100 ∷ 101 ∷ []

-- -rcvbuf
abbrev pub flag_rcvbuf : Bytes
flag_rcvbuf = 45 ∷ 114 ∷ 99 ∷ 118 ∷ 98 ∷ 117 ∷ 102 ∷ []

-- -b
abbrev pub flag_b : Bytes
flag_b = 45 ∷ 98 ∷ []

-- -v
abbrev pub flag_v : Bytes
flag_v = 45 ∷ 118 ∷ []

-- --verbose
abbrev pub flag_verbose : Bytes
flag_verbose = 45 ∷ 45 ∷ 118 ∷ 101 ∷ 114 ∷ 98 ∷ 111 ∷ 115 ∷ 101 ∷ []

-- --passthrough
abbrev pub flag_passthrough : Bytes
flag_passthrough = 45 ∷ 45 ∷ 112 ∷ 97 ∷ 115 ∷ 115 ∷ 116 ∷ 104 ∷ 114 ∷ 111 ∷ 117 ∷ 103 ∷ 104 ∷ []

-- --stats
abbrev pub flag_stats : Bytes
flag_stats = 45 ∷ 45 ∷ 115 ∷ 116 ∷ 97 ∷ 116 ∷ 115 ∷ []

-- blocklist.txt
abbrev pub default_path : Bytes
default_path = 98 ∷ 108 ∷ 111 ∷ 99 ∷ 107 ∷ 108 ∷ 105 ∷ 115 ∷ 116 ∷ 46 ∷ 116 ∷ 120 ∷ 116 ∷ []
