-- ===== src/Packages/Envra.antt =====
-- What yum prints of a package is parsed as it was (convert2rhel/pkghandler.py): the epoch stands in
-- front of the name.
use convert2rhel.Prelude.{
  ◌+◌, String, ◌<>◌, Bool, true, false, some, string_eq, nat_eq, ok, ◌≡◌, refl, ◌∙◌, arith,
}
use convert2rhel.Prelude.Text.{has_char, count, char-append, append_assoc, cons-append, nil-append}
use convert2rhel.Packages.{get_pkg_nevra, epoch_text}
use convert2rhel.Packages.Parse.{
  Manager, digits_colon, is_nevra, fields_match, parsed_length, validate_parsed_fields, parse_other,
  parse_pkg_with_yum, parse_pkg_string,
}
use convert2rhel.Packages.Between.{between, count-between, has_char-between}
use convert2rhel.Packages.Laws.{IsClass-matches, has_char-all}
use convert2rhel.Packages.Printed.{IsDigits, IsName, fields}

abbrev name_onward : (name version release arch : String) → String
name_onward name version release arch =
    between name "-" (between version "-" (between release "." arch))

abbrev pub envra : (name epoch version release arch : String) → String
envra name epoch version release arch = between epoch ":" (name_onward name version release arch)

get_pkg_nevra-envra :
    (name epoch version release arch : String)
    → get_pkg_nevra true
        (record {
          name = name;
          epoch = epoch;
          version = version;
          release = release;
          arch = some arch;
        })
        true
      ≡ envra name epoch version release arch
unfolding get_pkg_nevra
get_pkg_nevra-envra name epoch version release arch =
    let with_epoch : epoch_text epoch true ≡ epoch <> ":" = ground arith in
    let tail = between release "." arch in
    let inner = between version "-" tail in
    rw
      (
        char-append "." arch,
        char-append "-" tail,
        char-append "-" inner,
        with_epoch,
        append_assoc epoch ":" (between name "-" inner),
        char-append ":" (between name "-" inner),
      )
      refl

module _ (manager : Manager) where
  digits_colon-colonless :
      (seen : Bool) (s : String) → has_char ":" s ≡ false → digits_colon manager seen s ≡ false
  unfolding digits_colon has_char
  digits_colon-colonless seen String.[] h = refl
  digits_colon-colonless seen (String.◌∷◌ c s) h = ground (arith, h, digits_colon-colonless true s)

  is_nevra-colonless : (s : String) → has_char ":" s ≡ false → is_nevra manager s ≡ false
  unfolding is_nevra has_char
  is_nevra-colonless String.[] h = refl
  is_nevra-colonless (String.◌∷◌ c s) h =
      ground (arith, h, digits_colon-colonless false s, is_nevra-colonless s)

  is_nevra-dashless :
      (x y : String) → has_char "-" x ≡ false → is_nevra manager (x <> y) ≡ is_nevra manager y
  unfolding is_nevra has_char
  is_nevra-dashless String.[] y h = rw (nil-append y) refl
  is_nevra-dashless (String.◌∷◌ c x) y h =
      rw (cons-append c x y) (ground (arith, h, is_nevra-dashless x y))

  is_nevra-colon : (s : String) → is_nevra manager (String.◌∷◌ ":" s) ≡ is_nevra manager s
  unfolding is_nevra nat_eq
  is_nevra-colon s = ground arith

module _ (manager : Manager) (name epoch version release arch : String) (digits : IsDigits manager)
    (n : IsName manager name epoch version release arch) where
  -- Nothing of the package but its epoch is followed by a colon.
  pub record IsColonless : Type 0 where
    pub in_name : has_char ":" name ≡ false
    pub in_version : has_char ":" version ≡ false
    pub in_release : has_char ":" release ≡ false
    pub in_arch : has_char ":" arch ≡ false

  module _ (c : IsColonless) where
    envra-is_nevra : is_nevra manager (envra name epoch version release arch) ≡ false
    unfolding nat_eq
    envra-is_nevra =
        let tail = has_char-between ":" "." release arch c.in_release refl c.in_arch in
        let inner =
          has_char-between ":" "-" version (between release "." arch) c.in_version refl tail in
        let rest =
          has_char-between ":" "-" name (between version "-" (between release "." arch)) c.in_name
            refl inner in
        let no_dash =
          has_char-all manager.is_digit "-" epoch digits.dash n.epoch_class.every_char in
        is_nevra-dashless manager epoch (String.◌∷◌ ":" (name_onward name version release arch))
          no_dash
        ∙ is_nevra-colon manager (name_onward name version release arch)
        ∙ is_nevra-colonless manager (name_onward name version release arch) rest

    count-envra :
        count (envra name epoch version release arch)
        ≡ count name + count epoch + count version + count release + count arch + 4
    count-envra = omega (
      arith,
      count-between epoch (name_onward name version release arch) ":",
      count-between name (between version "-" (between release "." arch)) "-",
      count-between version (between release "." arch) "-",
      count-between release arch ".",
    )

    valid_envra :
        validate_parsed_fields manager
          (envra name epoch version release arch)
          (fields manager name epoch version release arch digits n)
        ≡ ok tt
    unfolding validate_parsed_fields fields_match parsed_length
    valid_envra = ground (
      arith,
      count-envra,
      n.known_arch,
      IsClass-matches _ name n.name_class,
      IsClass-matches _ epoch n.epoch_class,
      IsClass-matches _ version n.version_class,
      IsClass-matches _ release n.release_class,
    )

    split_envra :
        manager.split_filename (envra name epoch version release arch)
          ≡ (name, (version, (release, (epoch, arch))))
        → parse_other manager (envra name epoch version release arch)
          ≡ fields manager name epoch version release arch digits n
    unfolding parse_other
    split_envra e = ground (
      arith, e, n.known_arch, n.name_class.some_char, n.epoch_class.some_char,
      n.version_class.some_char, n.release_class.some_char,
    )

    -- Under yum, the name that is printed of a package with an epoch and a known arch is parsed to the
    -- fields of the package, where the name, the epoch, the version and the release are texts without
    -- white space, the epoch of digits, version and release without a dash, and no field holds a
    -- colon, and where `splitFilename` of rpmUtils splits this one name into the fields.
    pub parse_pkg_string-get_pkg_nevra :
        manager.is_yum ≡ true
        → manager.split_filename (envra name epoch version release arch)
          ≡ (name, (version, (release, (epoch, arch))))
        → parse_pkg_string manager (
            get_pkg_nevra manager.is_yum
              (record {
                name = name;
                epoch = epoch;
                version = version;
                release = release;
                arch = some arch;
              })
              true)
          ≡ ok (record {
            name = some name;
            epoch = some epoch;
            version = some version;
            release = some release;
            arch = some arch;
          })
    unfolding parse_pkg_string parse_pkg_with_yum
    parse_pkg_string-get_pkg_nevra yum e =
        rw (yum, get_pkg_nevra-envra name epoch version release arch)
          (ground (arith, yum, envra-is_nevra, split_envra e, valid_envra))
