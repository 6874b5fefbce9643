-- ===== src/Http/Answered.antt =====
-- How a handler leaves a response to which nothing was written.
use genkit_proxy.Generating.{Panic}
use genkit_proxy.Common.{ℕ, ◌≡◌, some}
use genkit_proxy.Http.{Writer, World}
use genkit_proxy.Http.Handler.{Exit, done, unwound}
use genkit_proxy.Http.Serve.Replies.{Unwritten}

-- With a reply that is `Good`, or by a panic: before anything is written, or behind the part of a
-- reply that is `Torn`.
pub data Answered {G L : Type 0} (Good Torn : Writer → Type 0) (res : Exit × World G L)
    : Type 0 where
  complete : res.0 ≡ done → Good res.1.writer → Answered Good Torn res
  silent : (p : Panic) → res.0 ≡ unwound p → Unwritten res.1.writer → Answered Good Torn res
  torn :
      (p : Panic) (code : ℕ)
      → res.0 ≡ unwound p
      → res.1.writer.status ≡ some code
      → Torn res.1.writer
      → Answered Good Torn res

pub Answered-mono :
    {G L : Type 0} {Good Torn Good' Torn' : Writer → Type 0}
    → ((w : Writer) → Good w → Good' w)
    → ((w : Writer) → Torn w → Torn' w)
    → (res : Exit × World G L) → Answered Good Torn res
    → Answered Good' Torn' res
Answered-mono f g res (complete e c) = complete e (f _ c)
Answered-mono f g res (silent p e u) = silent p e u
Answered-mono f g res (torn p code e s c) = torn p code e s (g _ c)

-- Of a handler that returned, the reply is whole.
pub Answered-done :
    {G L : Type 0} {Good Torn : Writer → Type 0} (res : Exit × World G L)
    → Answered Good Torn res
    → res.0 ≡ done
    → Good res.1.writer
Answered-done res (complete e c) d = c
Answered-done res (silent p e u) d = cc (e, d)
Answered-done res (torn p code e s c) d = cc (e, d)
