-- ===== src/Http/Connection/Laws.antt =====
-- What Send does to the connection on every path, and what a client can read of a whole session.
use mathlib.Core.List.{append-nil}
use sse_eventbus_go.Prelude.{
  Bool, true, false, [], ◌∷◌, ◌++◌, none, some, ◌≡◌, refl, sym, subst, ap, ◌⊎◌, inl, inr, arith,
  ◌==◌, if◌then◌else◌, Str, contains_any, length, length-append,
}
use sse_eventbus_go.Prelude.Int.{pos, ltb_ℤ}
use sse_eventbus_go.Errors.{
  Error, Fallible, errors_is, is, wrap, both, join, closed, invalid_message, short_write,
}
use sse_eventbus_go.Event.{Message, line_breaks, null_or_line_breaks}
use sse_eventbus_go.Event.Valid.{contains_any-Free}
use sse_eventbus_go.Http.{frame}
use sse_eventbus_go.Http.Roundtrip.{IsOneLine}
use sse_eventbus_go.Http.Connection.{
  Connection, Answers, close_locked, close_on_error, after_write, after_deadline, send_result,
  write_frame, send,
}

-- io.Writer takes bytes from the front of what it is given.
abbrev pub IsHonest : Answers → Str → Type 0
IsHonest a text = (rest : Str) × (text ≡ a.written ++ rest)

nil_of_length : (s t : Str) → length s ≡ length (s ++ t) → t ≡ []
nil_of_length s [] h = refl
nil_of_length s (c ∷ t) h = absurd (omega (arith, length-append s (c ∷ t)))

-- A count of all the bytes means that all the bytes went out.
honest_whole :
    (a : Answers) (text : Str)
    → IsHonest a text
    → (length a.written == length text) ≡ true
    → a.written ≡ text
honest_whole a text (rest, e) h =
    let nothing : rest ≡ [] = nil_of_length a.written rest (ground (arith, ap length e)) in
    rw (e, nothing) (sym (append-nil a.written))

close_locked-closed : (err : Fallible) (c : Connection) → (close_locked err c).is_closed ≡ true
unfolding close_locked
close_locked-closed err c = ground arith

-- All the text out and no error, or some error.
abbrev Ends : Str → Connection → Fallible × Connection → Type 0
Ends text c r =
    (r ≡ (none, record c { output = c.output ++ text }))
    ⊎ ((e : Error) × (d : Connection) × (r ≡ (some e, d)))

module _ (a : Answers) (text : Str) (c : Connection) (h : IsHonest a text) where
  flushed-Ends :
      (test : Bool)
      → (length a.written == length text) ≡ test
      → (flush : Fallible)
      → Ends text c (
          if test
          then (flush, record c { output = c.output ++ a.written })
          else (some (is short_write), record c { output = c.output ++ a.written }))
  flushed-Ends true e none = inl (rw (honest_whole a text h e))
  flushed-Ends true e (some x) = inr (x, _, refl)
  flushed-Ends false e flush = inr (is short_write, _, refl)

  written-Ends :
      (write_err : Fallible)
      → Ends text c (after_write a text write_err (record c { output = c.output ++ a.written }))
  written-Ends (some e) = inr (e, _, refl)
  written-Ends none = flushed-Ends _ refl a.flush_err

  write-Ends : (deadline : Fallible) → Ends text c (after_deadline a text deadline c)
  write-Ends (some e) = inr (e, c, refl)
  write-Ends none = written-Ends a.write_err

-- writeFrame: either the whole text is out and nothing else changes, or the connection is closed.
pub write_frame-cases :
    (a : Answers) (text : Str) (c : Connection)
    → IsHonest a text
    → (write_frame a text c ≡ (none, record c { output = c.output ++ text }))
      ⊎ ((e : Error) × ((write_frame a text c).0 ≡ some e)
          × ((write_frame a text c).1.is_closed ≡ true))
unfolding write_frame
write_frame-cases a text c h =
    by_end _ (write-Ends a text c h (if ltb_ℤ (pos 0) c.write_timeout then a.deadline else none))
  where
    by_end :
        (r : Fallible × Connection)
        → Ends text c r
        → (close_on_error r ≡ (none, record c { output = c.output ++ text }))
          ⊎ ((e : Error) × ((close_on_error r).0 ≡ some e)
              × ((close_on_error r).1.is_closed ≡ true))
    by_end r (inl e) = inl (rw e)
    by_end r (inr (x, d, e)) = inr (x, rw e, rw e (close_locked-closed (some x) d))

-- How a call of Send ends: with the whole frame out, refused with the connection as it was, or with
-- a transport error that closes the connection.
pub data SendEnds (m : Message) (c : Connection) : Fallible × Connection → Type 0 where
  sent :
      IsOneLine m
      → c.is_closed ≡ false
      → SendEnds m c (none, record c { output = c.output ++ frame m })
  refused :
      (e : Error)
      → (errors_is (some e) invalid_message ≡ true) ⊎ (errors_is (some e) closed ≡ true)
      → SendEnds m c (some e, c)
  broken :
      (e : Error) (d : Connection)
      → errors_is (some e) closed ≡ true
      → d.is_closed ≡ true
      → SendEnds m c (some e, d)

SendEnds-if :
    {m : Message} {c : Connection} (test : Bool) {x y : Fallible × Connection}
    → (test ≡ true → SendEnds m c x)
    → (test ≡ false → SendEnds m c y)
    → SendEnds m c (if test then x else y)
SendEnds-if true f g = f refl
SendEnds-if false f g = g refl

wraps_invalid :
    (text : Str) → errors_is (some (wrap text (is invalid_message))) invalid_message ≡ true
unfolding errors_is
wraps_invalid text = refl

transport_error :
    (m : Message) (c : Connection) (e : Error) (d : Connection)
    → d.is_closed ≡ true
    → SendEnds m c (send_result (some e, d))
unfolding join errors_is
transport_error m c e d q = broken (both (is closed) e) d refl q

-- Send ends in one of these ways, whatever the message and the response do.
pub send-SendEnds :
    (request_done : Bool) (a : Answers) (m : Message) (c : Connection)
    → IsHonest a (frame m)
    → SendEnds m c (send request_done a m c)
unfolding send
send-SendEnds request_done a m c h =
    SendEnds-if c.is_closed (λ _. refused (is closed) (inr (unfold errors_is in refl)))
      λ is_open.
        SendEnds-if request_done (λ _. refused (is closed) (inr (unfold errors_is in refl)))
          λ _.
            SendEnds-if (contains_any m.event line_breaks) (λ _. refused _ (inl (wraps_invalid _)))
              λ event.
                SendEnds-if (contains_any m.id null_or_line_breaks)
                  (λ _. refused _ (inl (wraps_invalid _)))
                  λ id.
                    SendEnds-if (ltb_ℤ m.retry (pos 0)) (λ _. refused _ (inl (wraps_invalid _)))
                      λ _.
                        by_write (write_frame a (frame m) c) (write_frame-cases a (frame m) c h)
                          is_open
                          (record {
                            event = contains_any-Free m.event line_breaks event;
                            id = contains_any-Free m.id null_or_line_breaks id;
                          })
  where
    by_write :
        (r : Fallible × Connection)
        → (r ≡ (none, record c { output = c.output ++ frame m }))
          ⊎ ((e : Error) × (r.0 ≡ some e) × (r.1.is_closed ≡ true))
        → c.is_closed ≡ false
        → IsOneLine m
        → SendEnds m c (send_result r)
    by_write r (inl e) is_open v =
        subst (λ s. SendEnds m c (send_result s)) (sym e) (sent v is_open)
    by_write (some x, d) (inr (e, p, q)) is_open v = transport_error m c x d q
    by_write (none, d) (inr (e, p, q)) is_open v = absurd (cc)
