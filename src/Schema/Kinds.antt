-- ===== src/Schema/Kinds.antt =====
-- The branch methods of `PropertyBuilder`: each sets the kind and the format of the builder, and only
-- `Array` and `Object` reset more. `ArraySchema` has the same methods for the builder of its items.
use gonest.Prelude.{ℕ, false, none, some, []}
use gonest.Prelude.Bytes.{Bytes, text}
use gonest.Schema.Property.{Kind, string, integer, number, boolean, array, object, duration, Setter}

abbrev pub set_kind : Kind → Bytes → Setter
set_kind kind format p = record p { kind = kind; format = format }

abbrev pub as_string : Setter
as_string = set_kind string []

abbrev pub as_email : Setter
as_email = set_kind string (text "email")

abbrev pub as_uuid : Setter
as_uuid = set_kind string (text "uuid")

abbrev pub as_uri : Setter
as_uri = set_kind string (text "uri")

abbrev pub as_hostname : Setter
as_hostname = set_kind string (text "hostname")

abbrev pub as_ipv4 : Setter
as_ipv4 = set_kind string (text "ipv4")

abbrev pub as_ipv6 : Setter
as_ipv6 = set_kind string (text "ipv6")

abbrev pub as_password : Setter
as_password = set_kind string (text "password")

abbrev pub as_byte : Setter
as_byte = set_kind string (text "byte")

abbrev pub as_binary : Setter
as_binary = set_kind string (text "binary")

abbrev pub as_integer : Setter
as_integer = set_kind integer (text "int64")

abbrev pub as_int32 : Setter
as_int32 = set_kind integer (text "int32")

abbrev pub as_float : Setter
as_float = set_kind number (text "float")

abbrev pub as_double : Setter
as_double = set_kind number (text "double")

abbrev pub as_boolean : Setter
as_boolean = set_kind boolean []

abbrev pub as_date_time : Setter
as_date_time = set_kind string (text "date-time")

abbrev pub as_date : Setter
as_date = set_kind string (text "date")

abbrev pub as_duration : Setter
as_duration = set_kind duration (text "duration")

-- `Array`, whose new item builder has the given index.
abbrev pub as_array : ℕ → Setter
as_array builder p = record p {
  format = text "array";
  kind = array;
  item = some builder;
  item_ref = none;
  min = none;
  max = none;
}

-- `Object` up to the call of the function that it takes.
abbrev pub as_object : Setter
as_object p = record p {
  format = text "object";
  kind = object;
  ref = none;
  additional_properties = false;
}
