-- ===== src/Hub/Schemas.antt =====
-- services/broadcast/src/schemas.ts: what each producer is allowed to send.
use faf_hackathon_challenge.Values.Schema.{
  Schema, string, nonempty_string, number, array, nonempty_array, object, strict_object, Shape,
  done, required, optional,
}

abbrev base_fields : Shape → Shape
base_fields rest =
    optional "message" string (optional "guest_id" string (optional "guest_name" string rest))

abbrev pub airport_arrival_schema : Schema
airport_arrival_schema =
    strict_object (base_fields (optional "gate" string (optional "passport_type" string done)))

abbrev pub hotel_event_schema : Schema
hotel_event_schema = strict_object (
    base_fields (
      optional "reservation_id" string (
        optional "room_type" string (
          optional "guest_count" number
            (optional "check_in_day" number (optional "check_out_day" number done))))))

abbrev pub beach_event_schema : Schema
beach_event_schema = strict_object (base_fields (optional "activity" string done))

abbrev pub crab_order_line_schema : Schema
crab_order_line_schema = object (
    required "item_id" string
      (required "name" string (optional "emoji" string (required "qty" number done))))

abbrev pub crab_order_schema : Schema
crab_order_schema = strict_object (
    base_fields (
      optional "order_id" string
        (optional "items" (array crab_order_line_schema) (optional "total" number done))))

abbrev pub crab_sold_out_schema : Schema
crab_sold_out_schema =
    strict_object (base_fields (optional "item_id" string (optional "name" string done)))

abbrev pub cursed_event_schema : Schema
cursed_event_schema = strict_object (
    required "guest_id" nonempty_string
      (required "message" nonempty_string (required "triggered_word" (nonempty_array string) done)))

abbrev pub public_announcement_schema : Schema
public_announcement_schema =
    strict_object (required "guestName" nonempty_string (required "message" nonempty_string done))

abbrev pub admin_announcement_schema : Schema
admin_announcement_schema =
    strict_object (required "message" nonempty_string (optional "sender" string done))
