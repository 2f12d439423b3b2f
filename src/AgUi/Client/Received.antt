-- ===== src/AgUi/Client/Received.antt =====
-- What a client over HTTP receives of the stream that crates/gola-core/src/ag_ui_handler.rs sends.
use gola.Prelude.{
  ◌≡◌, refl, sym, ap, ◌∙◌, false, Option, none, some, List, [], ◌∷◌, ◌++◌, is_empty, Text, codes,
  ◌⊎◌, inl, inr,
}
use gola.AgUi.Events.{Event}
use gola.AgUi.Handler.{ServerResult, failed, done}
use gola.AgUi.Sse.{Serde, event_name, from_ag_ui_event, SseEvent, written_as, with_type}
use gola.AgUi.Sse.Read.{ReadsBack, from_sse-event_name}
use gola.AgUi.Client.{
  from_gola_event, direct_events, nothing_read, yielded, complete_event, read_line, read_lines,
}

abbrev pub data_line : Text → Text
data_line payload = codes "data: " ++ payload

abbrev pub name_line : Text → Text
name_line name = codes "event: " ++ name

-- The lines of one event, as the framework writes them: its two fields in an order of its own, and
-- an empty line.
abbrev pub IsFramed : Text → Text → List Text → Type 0
IsFramed name payload lines =
    (lines ≡ data_line payload ∷ name_line name ∷ [] ∷ [])
    ⊎ (lines ≡ name_line name ∷ data_line payload ∷ [] ∷ [])

abbrev name_or_empty : Option Text → Text
name_or_empty none = []
name_or_empty (some name) = name

abbrev name_of_result : ServerResult SseEvent → Text
name_of_result (failed e) = []
name_of_result (done s) = name_or_empty s.event_type

name_written :
    (n name text : Text) (r : Text ⊎ Text) → written_as n r ≡ done (with_type name text) → n ≡ name
name_written n name text (inl e) h = absurd (cc h)
name_written n name text (inr payload) h = ap name_of_result h

module _ {V : Type 0} (serde : Serde V) (trim : Text → Text) where
  -- The server sends of an event a name and a text, `lines` are what it writes of them, and the text is
  -- read back as the event, is not empty and has like the name no blanks around it.
  pub record IsSent (e : Event V) (lines : List Text) : Type 0 where
    pub name : Text
    pub text : Text
    pub sent : from_ag_ui_event serde e ≡ done (with_type name text)
    pub back : ReadsBack serde e text
    pub filled : is_empty text ≡ false
    pub text_trimmed : trim (codes " " ++ text) ≡ text
    pub name_trimmed : trim (codes " " ++ name) ≡ name
    pub framed : IsFramed name text lines

  abbrev pub AllSent : List (Event V) → List (List Text) → Type 0
  AllSent [] [] = Unit
  AllSent (e ∷ es) (ls ∷ lss) = IsSent e ls × AllSent es lss
  AllSent _ _ = ⊥

  abbrev pub joined : List (List Text) → List Text
  joined [] = []
  joined (ls ∷ lss) = ls ++ joined lss

  name_sent :
      (e : Event V) (name text : Text)
      → from_ag_ui_event serde e ≡ done (with_type name text)
      → event_name e ≡ name
  unfolding from_ag_ui_event
  name_sent e name text h = name_written (event_name e) name text (serde.to_string e) h

  complete_event_lem :
      (e : Event V) (name text : Text)
      → event_name e ≡ name
      → ReadsBack serde e text
      → is_empty text ≡ false
      → complete_event serde trim (record { event_name = name; payload = text })
        ≡ from_gola_event e ∷ []
  unfolding complete_event
  complete_event_lem e name text g h f =
      rw (f, sym g) (ap (yielded serde trim) (from_sse-event_name serde e text h))

  read_lines-framed :
      (e : Event V) (name text : Text) (ls rest : List Text)
      → event_name e ≡ name
      → ReadsBack serde e text
      → is_empty text ≡ false
      → trim (codes " " ++ text) ≡ text
      → trim (codes " " ++ name) ≡ name
      → IsFramed name text ls
      → read_lines serde trim nothing_read (ls ++ rest)
        ≡ from_gola_event e ∷ read_lines serde trim nothing_read rest
  unfolding read_lines read_line
  read_lines-framed e name text ls rest g h f t n (inl framed) = rw framed (
      rw (t, n)
        (ap (◌++ read_lines serde trim nothing_read rest) (complete_event_lem e name text g h f)))
  read_lines-framed e name text ls rest g h f t n (inr framed) = rw framed (
      rw (t, n)
        (ap (◌++ read_lines serde trim nothing_read rest) (complete_event_lem e name text g h f)))

  -- A client over HTTP receives what a client with the handler at hand receives, event by event: the
  -- lines of the response are those that the server writes of the events, one after the other. The
  -- conditions on each event: serde writes it as a text from which the reader of its kind reads it
  -- back, as it does where no field is a null that it would read as absent; and that text is not
  -- empty, and `trim` leaves it and the event's name as they are.
  pub read_lines-direct_events :
      (es : List (Event V)) (lss : List (List Text))
      → AllSent es lss
      → read_lines serde trim nothing_read (joined lss) ≡ direct_events es
  unfolding read_lines
  read_lines-direct_events [] [] h = refl
  read_lines-direct_events (e ∷ es) (ls ∷ lss) (s, h) =
      read_lines-framed e s.name s.text ls (joined lss) (name_sent e s.name s.text s.sent) s.back
        s.filled s.text_trimmed s.name_trimmed s.framed
      ∙ ap (from_gola_event e ∷◌) (read_lines-direct_events es lss h)
  read_lines-direct_events [] (ls ∷ lss) h = absurd h
  read_lines-direct_events (e ∷ es) [] h = absurd h
