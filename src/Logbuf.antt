-- ===== src/Logbuf.antt =====
-- first-proxylab-handout/logbuf.c and logbuf.h: the buffer of `Sbuf`, with `char *` items. A NULL
-- pointer is `none`.
use systems_programming.Base.{ℕ, Option, none, CStr}
use systems_programming.Sbuf
use systems_programming.Sbuf.{Sbuf, Outcome}

-- `logbuf_t`
abbrev pub Logbuf : Type 0
Logbuf = Sbuf (Option CStr)

unfoldable pub logbuf_init : ℕ → Logbuf
logbuf_init n = Sbuf.sbuf_init none n

unfoldable pub logbuf_deinit : Logbuf → Logbuf
logbuf_deinit sp = Sbuf.sbuf_deinit sp

unfoldable pub logbuf_insert : Logbuf → Option CStr → Outcome Logbuf
logbuf_insert sp item = Sbuf.sbuf_insert sp item

unfoldable pub logbuf_remove : Logbuf → Outcome (Option CStr × Logbuf)
logbuf_remove sp = Sbuf.sbuf_remove sp
