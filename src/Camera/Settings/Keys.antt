-- ===== src/Camera/Settings/Keys.antt =====
-- The members that the settings may have, by the function that reads them.
use ipc_with_cht.Prelude.{List, [], ◌∷◌}
use ipc_with_cht.Prelude.Bytes.{Bytes}
use ipc_with_cht.Prelude.Text.{codes}

-- parseHamiCamInfo, behind "camSid".
abbrev pub info_texts : List Bytes
info_texts =
    codes "camId" ∷ codes "chtBarcode" ∷ codes "tenantId" ∷ codes "netNo" ∷ codes "userId" ∷ []

-- parseHamiSettings
abbrev pub settings_texts : List Bytes
settings_texts =
    codes "nightMode"
    ∷ codes "autoNightVision"
    ∷ codes "statusIndicatorLight"
    ∷ codes "isFlipUpDown"
    ∷ codes "isHd"
    ∷ codes "flicker"
    ∷ codes "imageQuality"
    ∷ codes "isMicrophone"
    ∷ codes "isSpeak"
    ∷ codes "scheduleOn"
    ∷ codes "ScheduleSun"
    ∷ codes "scheduleMon"
    ∷ codes "scheduleTue"
    ∷ codes "scheduleWed"
    ∷ codes "scheduleThu"
    ∷ codes "scheduleFri"
    ∷ codes "scheduleSat"
    ∷ codes "powerOn"
    ∷ codes "alertOn"
    ∷ codes "vmd"
    ∷ codes "ad"
    ∷ codes "lastPtzCommand"
    ∷ codes "ptzStatus"
    ∷ codes "ptzSpeed"
    ∷ codes "ptzTourStayTime"
    ∷ codes "humanTracking"
    ∷ codes "petTracking"
    ∷ codes "ptzTourSequence"
    ∷ codes "positionName1"
    ∷ codes "positionName2"
    ∷ codes "positionName3"
    ∷ codes "positionName4"
    ∷ []

abbrev pub settings_ints : List Bytes
settings_ints =
    codes "microphoneSensitivity"
    ∷ codes "speakVolume"
    ∷ codes "storageDay"
    ∷ codes "eventStorageDay"
    ∷ codes "power"
    ∷ []

-- parseHamiAiSettings
abbrev pub ai_texts : List Bytes
ai_texts =
    codes "vmdAlert"
    ∷ codes "humanAlert"
    ∷ codes "petAlert"
    ∷ codes "adAlert"
    ∷ codes "fenceAlert"
    ∷ codes "faceAlert"
    ∷ codes "fallAlert"
    ∷ codes "adBabyCryAlert"
    ∷ codes "adSpeechAlert"
    ∷ codes "adAlarmAlert"
    ∷ codes "adDogAlert"
    ∷ codes "adCatAlert"
    ∷ codes "fenceDir"
    ∷ []

abbrev pub ai_ints : List Bytes
ai_ints =
    codes "vmdSen"
    ∷ codes "adSen"
    ∷ codes "humanSen"
    ∷ codes "faceSen"
    ∷ codes "fenceSen"
    ∷ codes "petSen"
    ∷ codes "adBabyCrySen"
    ∷ codes "adSpeechSen"
    ∷ codes "adAlarmSen"
    ∷ codes "adDogSen"
    ∷ codes "adCatSen"
    ∷ codes "fallSen"
    ∷ codes "fallTime"
    ∷ []

abbrev pub fences : List Bytes
fences = codes "fencePos1" ∷ codes "fencePos2" ∷ codes "fencePos3" ∷ codes "fencePos4" ∷ []

-- parseHamiSystemSettings
abbrev pub system_texts : List Bytes
system_texts = codes "otaDomainName" ∷ codes "ntpServer" ∷ codes "bucketName" ∷ []
